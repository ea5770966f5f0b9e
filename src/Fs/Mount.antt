-- ===== src/Fs/Mount.antt =====
-- The state of a mount: the shared state, and the file_info objects that FUSE holds a pointer to
-- (fileInfo->fh), by number.
use wwdedup.Prelude.{ℕ, suc, Bool, not, Option, none, some, List, ◌∷◌, ◌==◌, select, find_first}
use wwdedup.Effects.{Outcome, Exec, abort, pure, gets, modify, ◌>>=◌}
use wwdedup.Types.{FileInfo, release_ref}
use wwdedup.State.{World, M}

pub record Handle : Type 0 where
  pub fh : ℕ
  pub info : FileInfo

pub record Mount : Type 0 where
  pub world : World
  pub handles : List Handle
  pub next_fh : ℕ

abbrev pub has_fh : ℕ → Handle → Bool
has_fh fh h = h.fh == fh

-- A call that works on no file_info of a handle.
unfoldable pub run : {A : Type 0} → M A → Exec Mount A
run m s = let (r, w) = m s.world in (r, record s { world = w })

-- A call on a file_info of its own, which is dropped at its end.
unfoldable pub run_on : {A : Type 0} → FileInfo → M A → Exec Mount A
unfolding run
run_on fi m s = run m (record s { world = record s.world { file = fi } })

abbrev pub keep_info : FileInfo → List Handle → ℕ → List Handle
keep_info fi hs fh = record { fh = fh; info = fi } ∷ select (λ h. not (has_fh fh h)) hs

abbrev pub on_found : {A : Type 0} → ℕ → M A → Mount → Option Handle → Outcome A × Mount
on_found fh m s none = abort s
on_found fh m s (some h) =
    let (r, w) = m (record s.world { file = h.info }) in
    (r, record s { world = w; handles = keep_info w.file s.handles fh })

-- A call on the file_info that a handle points to; a handle that is none is a wild pointer.
unfoldable pub run_handle : {A : Type 0} → ℕ → M A → Exec Mount A
run_handle fh m s = on_found fh m s (find_first (has_fh fh) s.handles)

-- fi.detach(): the object goes on living behind a new handle.
unfoldable pub detach : FileInfo → Exec Mount ℕ
detach fi s =
    (pure s.next_fh (record s {
      handles = record { fh = s.next_fh; info = fi } ∷ s.handles;
      next_fh = suc s.next_fh;
    }))

abbrev put_back : ℕ → Option FileInfo → List Handle → List Handle
put_back fh none hs = select (λ h. not (has_fh fh h)) hs
put_back fh (some fi) hs = keep_info fi hs fh

abbrev pub release_found : ℕ → Option Handle → Exec Mount (Unit {0})
release_found fh none = abort
release_found fh (some h) =
    modify (λ s. record s { handles = put_back fh (release_ref h.info) s.handles })

-- intrusive_ptr_release((file_info*)fileInfo->fh)
unfoldable pub release_handle : ℕ → Exec Mount (Unit {0})
unfolding release_ref
release_handle fh = do found ← gets (λ s. find_first (has_fh fh) s.handles); release_found fh found
