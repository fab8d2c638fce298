-- ===== src/KernelFile/Bounds.antt =====
-- The path is built within its buffer, and is the path meant.

use mathlib.Core.Path.{subst}
use edge_telemetry_daemon.Shared.{
  ℕ, suc, ◌+◌, ◌<◌, ◌≤◌, ◌≡◌, refl, sym, ap, ap₂, ◌∙◌, Bool, true, false, inl, inr, Option, some,
  [], ◌∷◌, ◌++◌, append_assoc, arith, length, length-append, length-replicate, length-drop, drop,
  set, get_or, replicate, if◌then◌else◌, ltb, leb, ◌==◌, Bool-cases, if_ind,
}
use edge_telemetry_daemon.Shared.Text.{Bytes}
use edge_telemetry_daemon.Shared.Scan.Lines.{Lacks, Lacks-append}
use edge_telemetry_daemon.KernelFile.{
  overwrite, copy_at, put, PathResult, built, Os, contents, fetch, read_kernel_file, slash_before,
  separate, seal, finish, write_path, c_string,
}

-- The last byte is a slash.
pub ends_in_slash : Bytes → Bool
ends_in_slash [] = false
ends_in_slash (x ∷ []) = x == b'/'
ends_in_slash (x ∷ y ∷ b) = ends_in_slash (y ∷ b)

-- The path of a file in a directory.
pub join : Bytes → Bytes → Bytes
join dir file = if ends_in_slash dir then dir ++ file else dir ++ (b'/' ∷ file)

overwrite-fits :
    (buf src : Bytes)
    → length src ≤ length buf
    → overwrite buf src ≡ (src ++ drop (length src) buf, length src)
unfolding overwrite
overwrite-fits [] [] h = refl
overwrite-fits [] (c ∷ src) h = absurd (omega arith)
overwrite-fits (b ∷ buf) [] h = refl
overwrite-fits (b ∷ buf) (c ∷ src) h =
    ap (λ (r : Bytes × ℕ). (c ∷ r.0, suc r.1)) (overwrite-fits buf src (omega arith))

copy_at-append :
    (a buf src : Bytes)
    → copy_at (a ++ buf) (length a) src ≡ (a ++ (overwrite buf src).0, (overwrite buf src).1)
unfolding copy_at
copy_at-append [] buf src = refl
copy_at-append (x ∷ a) buf src = ap (λ (r : Bytes × ℕ). (x ∷ r.0, r.1)) (copy_at-append a buf src)

-- A copy behind what is there, where it fits.
copy_at-fits :
    (a buf src : Bytes)
    → length src ≤ length buf
    → copy_at (a ++ buf) (length a) src ≡ (a ++ (src ++ drop (length src) buf), length src)
copy_at-fits a buf src h =
    copy_at-append a buf src ∙ ap (λ (r : Bytes × ℕ). (a ++ r.0, r.1)) (overwrite-fits buf src h)

set-append :
    (a buf : Bytes) (v : ℕ) → 0 < length buf → set (a ++ buf) (length a) v ≡ a ++ (v ∷ drop 1 buf)
set-append [] [] v h = absurd (omega arith)
set-append [] (b ∷ buf) v h = refl
set-append (x ∷ a) buf v h = ap (λ r. x ∷ r) (set-append a buf v h)

put-append :
    (a buf : Bytes) (v : ℕ)
    → 0 < length buf
    → put (a ++ buf) (length a) v ≡ some (a ++ (v ∷ drop 1 buf))
unfolding put
put-append a buf v h =
    if_ind (λ (o : Option Bytes). o ≡ some (a ++ (v ∷ drop 1 buf)))
      (ltb (length a) (length (a ++ buf))) (λ _. ap some (set-append a buf v h))
      (λ e. absurd (ground (arith, length-append a buf)))

get_or-last :
    (x : ℕ) (dir rest : Bytes)
    → get_or (x ∷ (dir ++ rest)) (length dir) 0 == b'/' ≡ ends_in_slash (x ∷ dir)
unfolding ends_in_slash
get_or-last x [] rest = refl
get_or-last x (y ∷ dir) rest = get_or-last y dir rest

slash_before-append :
    (dir rest : Bytes) → slash_before (dir ++ rest) (length dir) ≡ ends_in_slash dir
unfolding slash_before ends_in_slash
slash_before-append [] rest = refl
slash_before-append (x ∷ dir) rest = get_or-last x dir rest

c_string-append : (a rest : Bytes) → Lacks 0 a → c_string (a ++ (0 ∷ rest)) ≡ a
unfolding c_string
c_string-append [] rest h = refl
c_string-append (x ∷ a) rest (e, h) = rw e (ap (λ r. x ∷ r) (c_string-append a rest h))

-- A path is in a buffer: it is all that comes before the first NUL.
pub record Holds (cap : ℕ) (path : Bytes) (r : PathResult) : Type 0 where
  pub buf : Bytes
  pub built_it : r ≡ built buf
  pub size : length buf ≡ cap
  pub named : c_string buf ≡ path

-- The end of the path, behind `a`.
finish-Holds :
    (cap : ℕ) (a buf file : Bytes)
    → Lacks 0 a
    → Lacks 0 file
    → length file < length buf
    → length a + length buf ≡ cap
    → Holds cap (a ++ file) (finish file (some (a ++ buf, length a)))
unfolding finish seal
finish-Holds cap a buf file ha hf room size =
    let rest = drop (length file) buf in
    let ended = (a ++ file) ++ (0 ∷ drop 1 rest) in
    let put_nul : put (a ++ (file ++ rest)) (length a + length file) 0 ≡ some ended =
      ap₂ (λ b n. put b n 0) (sym (append_assoc a file rest)) (sym (length-append a file))
      ∙ put-append (a ++ file) rest 0 (omega (arith, length-drop (length file) buf)) in
    record {
      buf = ended;
      built_it =
          ap (λ (r : Bytes × ℕ). seal (put r.0 (length a + r.1) 0))
            (copy_at-fits a buf file (omega arith))
          ∙ ap seal put_nul;
      size = omega (
        arith,
        length-append (a ++ file) (0 ∷ drop 1 rest),
        length-append a file,
        length-drop 1 rest,
        length-drop (length file) buf,
      );
      named = c_string-append (a ++ file) (drop 1 rest) (Lacks-append 0 a file ha hf);
    }

separate-slash :
    (dir rest : Bytes)
    → ends_in_slash dir ≡ true
    → separate (dir ++ rest) (length dir) ≡ some (dir ++ rest, length dir)
unfolding separate
separate-slash dir rest e = simp (slash_before-append dir rest, e)

separate-plain :
    (dir rest : Bytes)
    → ends_in_slash dir ≡ false
    → 0 < length rest
    → separate (dir ++ rest) (length dir)
      ≡ some ((dir ++ (b'/' ∷ [])) ++ drop 1 rest, length (dir ++ (b'/' ∷ [])))
unfolding separate
separate-plain dir rest e room =
    simp (slash_before-append dir rest, e, put-append dir rest b'/' room)
      (ap₂ (λ (b : Bytes) (n : ℕ). some (b, n)) (sym (append_assoc dir (b'/' ∷ []) (drop 1 rest)))
        (sym (length-append dir (b'/' ∷ []))))

-- The path behind the directory, by whether that ends in a slash.
named-Holds :
    (cap : ℕ) (dir rest file : Bytes)
    → Lacks 0 dir
    → Lacks 0 file
    → length file + 1 < length rest
    → length dir + length rest ≡ cap
    → Holds cap (join dir file) (finish file (separate (dir ++ rest) (length dir)))
unfolding join
named-Holds cap dir rest file hd hf room size = elim (Bool-cases (ends_in_slash dir)) [
  | inl e ↦
      rw (separate-slash dir rest e)
        (rw e (finish-Holds cap dir rest file hd hf (omega arith) size))
  | inr e ↦ rw (separate-plain dir rest e (omega arith)) (
      rw e (
        subst
          (λ x.
            Holds cap x (
              finish file
                (some ((dir ++ (b'/' ∷ [])) ++ drop 1 rest, length (dir ++ (b'/' ∷ []))))))
          (append_assoc dir (b'/' ∷ []) file)
          (finish-Holds cap (dir ++ (b'/' ∷ [])) (drop 1 rest) file
            (Lacks-append 0 dir (b'/' ∷ []) hd (refl, tt)) hf (omega (arith, length-drop 1 rest))
            (omega (arith, length-drop 1 rest, length-append dir (b'/' ∷ []))))))
]

-- For a directory and a name without NUL bytes whose lengths and one more are less than the buffer's
-- size, every write is inside the buffer, and the kernel is given the name in the directory, with a
-- slash between them unless the directory ends in one.
pub write_path-Holds :
    (cap : ℕ) (dir file : Bytes)
    → Lacks 0 dir
    → Lacks 0 file
    → length dir + 1 + length file < cap
    → Holds cap (join dir file) (write_path cap dir file)
unfolding write_path
write_path-Holds size dir file hd hf fits =
    let all : Bytes = replicate size 0 in
    let rest = drop (length dir) all in
    let copied = copy_at-fits [] all dir (omega (arith, length-replicate {A = ℕ} size 0)) in
    if_ind (λ (r : PathResult). Holds size (join dir file) r)
      (leb size (length dir + 1 + length file)) (λ e. absurd (ground arith))
      (λ _.
        subst (λ (r : Bytes × ℕ). Holds size (join dir file) (finish file (separate r.0 r.1)))
          (sym copied)
          (named-Holds size dir rest file hd hf
            (omega (arith, length-drop (length dir) all, length-replicate {A = ℕ} size 0))
            (omega (arith, length-drop (length dir) all, length-replicate {A = ℕ} size 0))))

-- A file that can be opened and read is read, by its path.
pub read_kernel_file-contents :
    (os : Os) (size n : ℕ) (dir file bytes : Bytes)
    → Lacks 0 dir
    → Lacks 0 file
    → length dir + 1 + length file < size
    → os.open_file (join dir file) ≡ true
    → os.read_file (join dir file) n ≡ some bytes
    → read_kernel_file os size n dir file ≡ contents bytes
unfolding read_kernel_file fetch
read_kernel_file-contents os size n dir file bytes hd hf fits opened got =
    let held = write_path-Holds size dir file hd hf fits in
    rw held.built_it (rw held.named (rw opened (rw got refl)))
