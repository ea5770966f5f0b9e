-- ===== src/Types/Modes.antt =====
-- The file types of st_mode and the error numbers, as Linux defines them.
use Prim.Native.Nat.{bit_and, bit_or}
use wwdedup.Prelude.{ℕ, Bool, ◌==◌}

abbrev pub s_ifmt : ℕ
s_ifmt = 0o170000

abbrev pub s_ifdir : ℕ
s_ifdir = 0o040000

abbrev pub s_ifreg : ℕ
s_ifreg = 0o100000

-- S_ISDIR
unfoldable pub is_dir : ℕ → Bool
is_dir mode = bit_and mode s_ifmt == s_ifdir

-- S_ISREG
unfoldable pub is_reg : ℕ → Bool
is_reg mode = bit_and mode s_ifmt == s_ifreg

-- mode | S_IFDIR
unfoldable pub or_dir : ℕ → ℕ
or_dir mode = bit_or mode s_ifdir

abbrev pub enoent : ℕ
enoent = 2

abbrev pub eio : ℕ
eio = 5

abbrev pub ebusy : ℕ
ebusy = 16

abbrev pub eexist : ℕ
eexist = 17

abbrev pub enotdir : ℕ
enotdir = 20

abbrev pub eisdir : ℕ
eisdir = 21

abbrev pub einval : ℕ
einval = 22

abbrev pub enosys : ℕ
enosys = 38

abbrev pub enotempty : ℕ
enotempty = 39
