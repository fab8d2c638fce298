-- ===== src/Cgroup/Discover.antt =====
-- internal/cgroup/cgroup.go: where the controller's directory is. The files and filepath.Join are
-- arguments.
mod Tests
use mathlib.Core.Option
use mathlib.Core.Path.{subst}
use edge_telemetry_daemon.Shared.{
  ℕ, ◌≡◌, refl, sym, ap, ◌∙◌, Bool, true, false, not, ◌&&◌, Option, none, some, List, [], ◌∷◌, ◌++◌,
  if◌then◌else◌, ◌==◌, append_assoc, Bool-cases, inl, inr,
}
use edge_telemetry_daemon.Shared.Text.{Bytes, codes, equal, is_empty}
use edge_telemetry_daemon.Shared.Scan.Lines.{Lacks, AllLack, unlines}

-- `os.ReadFile` of /proc/self/cgroup, `none` for an error; filepath.Join; and whether Stat, the
-- permission bits or Access say that a file cannot be written.
pub record Files : Type 0 where
  pub self_cgroup : Option Bytes
  pub join : Bytes → Bytes → Bytes
  pub cannot_write : Bytes → Bool

abbrev pub sys_cgroup_root : Bytes
sys_cgroup_root = codes "/sys/fs/cgroup"

-- `strings.CutPrefix`
pub cut_prefix : Bytes → Bytes → Option Bytes
cut_prefix [] s = some s
cut_prefix (p ∷ ps) [] = none
cut_prefix (p ∷ ps) (c ∷ s) = if p == c then cut_prefix ps s else none

pub grow : ℕ → List Bytes → List Bytes
grow c [] = (c ∷ []) ∷ []
grow c (l ∷ ls) = (c ∷ l) ∷ ls

-- `strings.SplitSeq` at newlines
pub split : Bytes → List Bytes
split [] = [] ∷ []
split (c ∷ b) = elim (c == 10) [ true ↦ [] ∷ split b | false ↦ grow c (split b) ]

-- The loop over the lines, up to its return.
pub find_unified : List Bytes → Option Bytes
find_unified [] = none
find_unified (l ∷ ls) = elim (cut_prefix (codes "0::") l) [
  | some suffix ↦ some suffix
  | none ↦ find_unified ls
]

pub discovered : Files → Option Bytes → Bytes
discovered fs none = sys_cgroup_root
discovered fs (some suffix) = fs.join sys_cgroup_root suffix

pub unified : Option Bytes → Option Bytes
unified none = none
unified (some b) = find_unified (split b)

pub discover_cgroup_path : Files → Bytes → Bytes
discover_cgroup_path fs provided =
    if not (is_empty provided) && not (equal provided sys_cgroup_root)
    then provided
    else discovered fs (unified fs.self_cgroup)

split-newline : (c : ℕ) (b : Bytes) → c == 10 ≡ true → split (c ∷ b) ≡ [] ∷ split b
unfolding split
split-newline c b e = simp (split, e)

split-other : (c : ℕ) (b : Bytes) → c == 10 ≡ false → split (c ∷ b) ≡ grow c (split b)
unfolding split
split-other c b e = simp (split, e)

split-append : (l b : Bytes) → Lacks 10 l → split (l ++ (10 ∷ b)) ≡ l ∷ split b
unfolding grow
split-append [] b h = split-newline 10 b refl
split-append (c ∷ l) b h = split-other c (l ++ (10 ∷ b)) h.0 ∙ ap (grow c) (split-append l b h.1)

-- No line is of the unified hierarchy.
abbrev pub AllOther : List Bytes → Type 0
AllOther [] = Unit
AllOther (l ∷ ls) = (cut_prefix (codes "0::") l ≡ none) × AllOther ls

find_unified-skip :
    (l : Bytes) (ls : List Bytes)
    → cut_prefix (codes "0::") l ≡ none
    → find_unified (l ∷ ls) ≡ find_unified ls
unfolding find_unified
find_unified-skip l ls e = simp (find_unified, e)

find-unlines :
    (ls : List Bytes) (suffix rest : Bytes)
    → AllLack 10 ls
    → AllOther ls
    → Lacks 10 suffix
    → find_unified (split (unlines ls ++ ((codes "0::" ++ suffix) ++ (10 ∷ rest)))) ≡ some suffix
unfolding unlines find_unified cut_prefix
find-unlines [] suffix rest ll other h =
    ap find_unified (split-append (codes "0::" ++ suffix) rest (refl, (refl, (refl, h))))
find-unlines (l ∷ ls) suffix rest ll other h =
    let more = unlines ls ++ ((codes "0::" ++ suffix) ++ (10 ∷ rest)) in
    ap (λ b. find_unified (split b)) (append_assoc l (10 ∷ unlines ls) _)
    ∙ ap find_unified (split-append l more ll.0)
    ∙ find_unified-skip l (split more) other.0
    ∙ find-unlines ls suffix rest ll.1 other.1 h

-- Where no directory is given, or the mount itself, and /proc/self/cgroup has lines of other
-- hierarchies and then the line of the unified one, the directory is that line's path under the
-- mount, whatever lines follow.
pub discover-unified :
    (fs : Files) (provided : Bytes) (ls : List Bytes) (suffix rest : Bytes)
    → not (is_empty provided) && not (equal provided sys_cgroup_root) ≡ false
    → fs.self_cgroup ≡ some (unlines ls ++ ((codes "0::" ++ suffix) ++ (10 ∷ rest)))
    → AllLack 10 ls
    → AllOther ls
    → Lacks 10 suffix
    → discover_cgroup_path fs provided ≡ fs.join sys_cgroup_root suffix
unfolding discover_cgroup_path unified discovered
discover-unified fs provided ls suffix rest given file ll other h =
    ap (λ t. if t then provided else discovered fs (unified fs.self_cgroup)) given
    ∙ ap (λ u. discovered fs (unified u)) file
    ∙ ap (discovered fs) (find-unlines ls suffix rest ll other h)
