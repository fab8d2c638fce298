-- ===== src/KernelFile.antt =====
-- Reading a file of the kernel with raw system calls into fixed buffers: the first part of
-- scrapeProcPath and CollectMem in internal/collector and of ReadCPUStat in internal/cgroup, which are
-- the same but for the sizes of the buffers. The system calls are arguments.
pub mod Bounds
mod Tests
use mathlib.Core.Option
use edge_telemetry_daemon.Shared.{
  ℕ, zero, suc, ◌+◌, ◌-◌, Bool, true, false, ◌&&◌, Option, none, some, List, [], ◌∷◌, length, set,
  get_or, replicate, if◌then◌else◌, ltb, leb, ◌==◌,
}
use edge_telemetry_daemon.Shared.Text.{Bytes}

-- `copy(buf, src)`: what fits is written, and counted.
unfoldable pub overwrite : Bytes → Bytes → Bytes × ℕ
overwrite [] src = ([], 0)
overwrite (b ∷ buf) [] = (b ∷ buf, 0)
overwrite (b ∷ buf) (c ∷ src) = let (r, n) = overwrite buf src in (c ∷ r, suc n)

-- `copy(buf[n:], src)`
unfoldable pub copy_at : Bytes → ℕ → Bytes → Bytes × ℕ
copy_at buf zero src = overwrite buf src
copy_at [] (suc n) src = ([], 0)
copy_at (b ∷ buf) (suc n) src = let (r, k) = copy_at buf n src in (b ∷ r, k)

-- `buf[i] = v`, which panics out of range.
unfoldable pub put : Bytes → ℕ → ℕ → Option Bytes
put buf i v = if ltb i (length buf) then some (set buf i v) else none

pub data PathResult : Type 0 where
  too_long panicked : PathResult
  built : Bytes → PathResult

-- `n > 0 && buf[n-1] == '/'`
unfoldable pub slash_before : Bytes → ℕ → Bool
slash_before buf zero = false
slash_before buf (suc n) = get_or buf n 0 == b'/'

-- The separator, unless the directory ends in one; then the index after it.
unfoldable pub separate : Bytes → ℕ → Option (Bytes × ℕ)
separate buf n =
    if slash_before buf n
    then some (buf, n)
    else Option.map (λ (b : Bytes). (b, n + 1)) (put buf n b'/')

unfoldable pub seal : Option Bytes → PathResult
seal none = panicked
seal (some buf) = built buf

-- The name of the file, and the NUL after it.
unfoldable pub finish : Bytes → Option (Bytes × ℕ) → PathResult
finish file none = panicked
finish file (some (buf, n)) = let (named, k) = copy_at buf n file in seal (put named (n + k) 0)

-- The path in a buffer of `cap` bytes.
unfoldable pub write_path : ℕ → Bytes → Bytes → PathResult
write_path cap dir file =
    if leb cap (length dir + 1 + length file)
    then too_long
    else let (buf, n) = copy_at (replicate cap 0) 0 dir in finish file (separate buf n)

-- What the kernel takes the buffer for: the bytes before the first NUL.
unfoldable pub c_string : Bytes → Bytes
c_string [] = []
c_string (b ∷ buf) = if b == 0 then [] else b ∷ c_string buf

-- openat(2) of a path, and read(2) of at most so many bytes of the file; `none` is an errno.
pub record Os : Type 0 where
  pub open_file : Bytes → Bool
  pub read_file : Bytes → ℕ → Option Bytes

pub data FileResult : Type 0 where
  path_too_long index_panic open_failed read_failed : FileResult
  contents : Bytes → FileResult

unfoldable pub fetch : Os → ℕ → PathResult → FileResult
fetch os size too_long = path_too_long
fetch os size panicked = index_panic
fetch os size (built buf) =
    if os.open_file (c_string buf)
    then elim (os.read_file (c_string buf) size) [ none ↦ read_failed | some b ↦ contents b ]
    else open_failed

unfoldable pub read_kernel_file : Os → ℕ → ℕ → Bytes → Bytes → FileResult
read_kernel_file os cap size dir file = fetch os size (write_path cap dir file)
