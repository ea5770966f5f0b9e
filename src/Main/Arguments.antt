-- ===== src/Main/Arguments.antt =====
-- main.cpp: which argument is the database.
use wwdedup.Effects.{aborts, ok}
use wwdedup.Main.{get_elem?, is_option, shift_left, skip_options, take_db_url}
use wwdedup.Prelude.{
  List, [], ap, arith, false, find_first, none, not, refl, some, true, ◌++◌, ◌∷◌, ◌≡◌,
}
use wwdedup.Types.{FilePath}

abbrev pub AllOptions : List FilePath → Type 0
AllOptions opts = find_first (λ a. not (is_option a)) opts ≡ none

shift_left-zero : (a : FilePath) (rest : List FilePath) → shift_left 0 (a ∷ rest) ≡ rest
unfolding shift_left
shift_left-zero a [] = refl
shift_left-zero a (b ∷ rest) = ap (λ (x : List FilePath). b ∷ x) (shift_left-zero b rest)

abbrev Taken : FilePath → List FilePath → List FilePath → Type 0
Taken db opts rest =
    (get_elem? (skip_options (opts ++ db ∷ rest)) (opts ++ db ∷ rest) ≡ some db)
    × (shift_left (skip_options (opts ++ db ∷ rest)) (opts ++ db ∷ rest) ≡ opts ++ rest)

taken :
    (db : FilePath) (opts rest : List FilePath)
    → AllOptions opts
    → is_option db ≡ false
    → Taken db opts rest
unfolding skip_options shift_left
taken db [] rest h e = rw e (refl, shift_left-zero db rest)
taken db (o ∷ opts) rest h e =
    let opt : is_option o ≡ true = ground (arith, h) in
    let k = taken db opts rest (ground (arith, h)) e in
    rw opt (k.0, ap (λ (x : List FilePath). o ∷ x) (k.1))

missing : (opts : List FilePath) → AllOptions opts → get_elem? (skip_options opts) opts ≡ none
unfolding skip_options
missing [] h = refl
missing (o ∷ opts) h =
    let opt : is_option o ≡ true = ground (arith, h) in rw opt (missing opts (ground (arith, h)))

-- Where every argument before it starts with a dash and it does not, an argument is taken as the
-- database, and fuse_main gets the others in their order; without such an argument, main makes a
-- string of a null pointer.
pub take_db_url-append :
    (db : FilePath) (opts rest : List FilePath)
    → AllOptions opts
    → is_option db ≡ false
    → (take_db_url (opts ++ db ∷ rest) ≡ ok (db, opts ++ rest)) × (take_db_url opts ≡ aborts)
unfolding take_db_url
take_db_url-append db opts rest h e =
    let k = taken db opts rest h e in (rw (k.0, k.1) refl, rw (missing opts h) refl)
