-- ===== src/Collector/Mem/RoundTrip.antt =====
-- What the parser makes of a file that was printed from entries.

use edge_telemetry_daemon.Shared.{
  ℕ, ◌+◌, ◌≡◌, sym, refl, ap, ◌∙◌, Bool, true, false, not, ◌||◌, Option, none, some, List, [], ◌∷◌,
  map, arith, if◌then◌else◌, ◌==◌, length, if_ind, ◌<◌,
}
use edge_telemetry_daemon.Shared.Scan.Lines.{Lacks}
use edge_telemetry_daemon.KernelFile.{Os}
use edge_telemetry_daemon.KernelFile.Bounds.{join, read_kernel_file-contents}
use edge_telemetry_daemon.Shared.Text.{Bytes, codes, equal, equal→≡}
use edge_telemetry_daemon.Shared.Scan.{scan_lines}
use edge_telemetry_daemon.Shared.Scan.Lines.{unlines, over, scan_lines-unlines}
use edge_telemetry_daemon.Shared.Scan.Entries.{
  Entry, key_of, value_of, line_of, AllEntries, AllLack-lines, IsEntry, read_entry-line_of,
}
use edge_telemetry_daemon.Collector.Mem.{
  MemStats, MemField, of_mem_total, of_mem_free, of_mem_available, of_buffers, of_cached,
  of_swap_total, of_swap_free, field_of, assign, store, mem_line, parse_mem_info, parse_file,
  collect_mem,
}

abbrev tag : MemField → ℕ
tag of_mem_total = 0
tag of_mem_free = 1
tag of_mem_available = 2
tag of_buffers = 3
tag of_cached = 4
tag of_swap_total = 5
tag of_swap_free = 6

abbrev pub get : MemField → MemStats → ℕ
get of_mem_total s = s.mem_total
get of_mem_free s = s.mem_free
get of_mem_available s = s.mem_available
get of_buffers s = s.buffers
get of_cached s = s.cached
get of_swap_total s = s.swap_total
get of_swap_free s = s.swap_free

get-assign :
    (f g : MemField) (v : ℕ) (s : MemStats)
    → get g (assign f v s) ≡ (if tag f == tag g then v else get g s)
unfolding assign
get-assign of_mem_total of_mem_total v s = refl
get-assign of_mem_total _ v s = refl
get-assign of_mem_free of_mem_total v s = refl
get-assign of_mem_free _ v s = refl
get-assign of_mem_available of_mem_total v s = refl
get-assign of_mem_available _ v s = refl
get-assign of_buffers of_mem_total v s = refl
get-assign of_buffers _ v s = refl
get-assign of_cached of_mem_total v s = refl
get-assign of_cached _ v s = refl
get-assign of_swap_total of_mem_total v s = refl
get-assign of_swap_total _ v s = refl
get-assign of_swap_free of_mem_total v s = refl
get-assign of_swap_free _ v s = refl

-- The key of a field in the file.
abbrev name : MemField → Bytes
name of_mem_total = codes "MemTotal"
name of_mem_free = codes "MemFree"
name of_mem_available = codes "MemAvailable"
name of_buffers = codes "Buffers"
name of_cached = codes "Cached"
name of_swap_total = codes "SwapTotal"
name of_swap_free = codes "SwapFree"

abbrev names : Option MemField → MemField → Bool
names none g = false
names (some f) g = tag f == tag g

equal-name : (f g : MemField) → equal (name f) (name g) ≡ (tag f == tag g)
unfolding equal
equal-name of_mem_total of_mem_total = refl
equal-name of_mem_total _ = refl
equal-name of_mem_free of_mem_total = refl
equal-name of_mem_free _ = refl
equal-name of_mem_available of_mem_total = refl
equal-name of_mem_available _ = refl
equal-name of_buffers of_mem_total = refl
equal-name of_buffers _ = refl
equal-name of_cached of_mem_total = refl
equal-name of_cached _ = refl
equal-name of_swap_total of_mem_total = refl
equal-name of_swap_total _ = refl
equal-name of_swap_free of_mem_total = refl
equal-name of_swap_free _ = refl

-- The switch took the case of `f`.
stored :
    (f g : MemField) (key : Bytes)
    → equal key (name f) ≡ true
    → (tag f == tag g) ≡ equal key (name g)
stored f g key hit = sym (ap (λ k. equal k (name g)) (equal→≡ key (name f) hit) ∙ equal-name f g)

missed :
    (key : Bytes) (g : MemField)
    → equal key (name of_mem_total) ≡ false
    → equal key (name of_mem_free) ≡ false
    → equal key (name of_mem_available) ≡ false
    → equal key (name of_buffers) ≡ false
    → equal key (name of_cached) ≡ false
    → equal key (name of_swap_total) ≡ false
    → equal key (name of_swap_free) ≡ false
    → false ≡ equal key (name g)
missed key of_mem_total m0 m1 m2 m3 m4 m5 m6 = sym m0
missed key of_mem_free m0 m1 m2 m3 m4 m5 m6 = sym m1
missed key of_mem_available m0 m1 m2 m3 m4 m5 m6 = sym m2
missed key of_buffers m0 m1 m2 m3 m4 m5 m6 = sym m3
missed key of_cached m0 m1 m2 m3 m4 m5 m6 = sym m4
missed key of_swap_total m0 m1 m2 m3 m4 m5 m6 = sym m5
missed key of_swap_free m0 m1 m2 m3 m4 m5 m6 = sym m6

-- The switch stores to the field that the key names, if any.
names-field_of : (key : Bytes) (g : MemField) → names (field_of key) g ≡ equal key (name g)
unfolding field_of
names-field_of key g =
    if_ind (λ (o : Option MemField). names o g ≡ equal key (name g)) (equal key (name of_mem_total))
      (λ hit. stored of_mem_total g key hit)
      (λ m0.
        if_ind (λ (o : Option MemField). names o g ≡ equal key (name g))
          (equal key (name of_mem_free)) (λ hit. stored of_mem_free g key hit)
          (λ m1.
            if_ind (λ (o : Option MemField). names o g ≡ equal key (name g))
              (equal key (name of_mem_available)) (λ hit. stored of_mem_available g key hit)
              (λ m2.
                if_ind (λ (o : Option MemField). names o g ≡ equal key (name g))
                  (equal key (name of_buffers)) (λ hit. stored of_buffers g key hit)
                  (λ m3.
                    if_ind (λ (o : Option MemField). names o g ≡ equal key (name g))
                      (equal key (name of_cached)) (λ hit. stored of_cached g key hit)
                      (λ m4.
                        if_ind (λ (o : Option MemField). names o g ≡ equal key (name g))
                          (equal key (name of_swap_total)) (λ hit. stored of_swap_total g key hit)
                          (λ m5.
                            if_ind (λ (o : Option MemField). names o g ≡ equal key (name g))
                              (equal key (name of_swap_free)) (λ hit. stored of_swap_free g key hit)
                              (λ m6. missed key g m0 m1 m2 m3 m4 m5 m6)))))))

-- The value of the last entry with the field's key, else the one from before.
pub latest : MemField → List Entry → ℕ → ℕ
latest g [] old = old
latest g (e ∷ es) old = latest g es (if equal (key_of e) (name g) then value_of e else old)

get-store :
    (g : MemField) (o : Option MemField) (v : ℕ) (s : MemStats × ℕ)
    → get g (store o v s).0 ≡ (if names o g then v else get g s.0)
unfolding store
get-store g none v s = refl
get-store g (some f) v s = get-assign f g v s.0

mem_line-line_of :
    (e : Entry) (s : MemStats × ℕ)
    → IsEntry 58 e
    → mem_line (line_of 58 e) s ≡ store (field_of (key_of e)) (value_of e) s
unfolding mem_line
mem_line-line_of e s h = simp (mem_line, read_entry-line_of 58 e h)

over-latest :
    (g : MemField) (es : List Entry) (s : MemStats × ℕ)
    → AllEntries 58 es
    → get g (over mem_line (map (line_of 58) es) s).0 ≡ latest g es (get g s.0)
unfolding over latest
over-latest g [] s h = refl
over-latest g (e ∷ es) s (h, hs) =
    over-latest g es (mem_line (line_of 58 e) s) hs
    ∙ ap (λ (x : MemStats × ℕ). latest g es (get g x.0)) (mem_line-line_of e s h)
    ∙ ap (latest g es) (get-store g (field_of (key_of e)) (value_of e) s)
    ∙ ap (λ b. latest g es (if b then value_of e else get g s.0)) (names-field_of (key_of e) g)

-- The key is a field's.
abbrev is_key : Bytes → Bool
is_key key =
    equal key (name of_mem_total)
    || (equal key (name of_mem_free)
        || (equal key (name of_mem_available)
            || (equal key (name of_buffers)
                || (equal key (name of_cached)
                    || (equal key (name of_swap_total) || (equal key (name of_swap_free)))))))

-- Some entry's key is a field's.
pub recognises : List Entry → Bool
recognises [] = false
recognises (e ∷ es) = is_key (key_of e) || recognises es

is_key-field_of :
    (key : Bytes) (r : Bool)
    → elim (field_of key) as (λ _. Bool) [ none ↦ r | some f ↦ true ] ≡ (is_key key || r)
unfolding field_of
is_key-field_of key r = ground arith

store-seen :
    (o : Option MemField) (v : ℕ) (s : MemStats × ℕ) (r : Bool)
    → not ((store o v s).1 == 0) || r
      ≡ not (s.1 == 0) || elim o as (λ _. Bool) [ none ↦ r | some f ↦ true ]
unfolding store
store-seen none v s r = refl
store-seen (some f) v s r = ground arith

over-seen :
    (es : List Entry) (s : MemStats × ℕ)
    → AllEntries 58 es
    → not ((over mem_line (map (line_of 58) es) s).1 == 0) ≡ (not (s.1 == 0) || recognises es)
unfolding over recognises
over-seen [] s h = ground arith
over-seen (e ∷ es) s (h, hs) =
    over-seen es (mem_line (line_of 58 e) s) hs
    ∙ ap (λ (x : MemStats × ℕ). not (x.1 == 0) || recognises es) (mem_line-line_of e s h)
    ∙ store-seen (field_of (key_of e)) (value_of e) s (recognises es)
    ∙ ap (λ b. not (s.1 == 0) || b) (is_key-field_of (key_of e) (recognises es))

parse_mem_info-unlines :
    (es : List Entry) (out : MemStats) (g : MemField)
    → AllEntries 58 es
    → let (out', fine) = parse_mem_info (unlines (map (line_of 58) es)) out in
      (get g out' ≡ latest g es (get g out)) × (fine ≡ recognises es)
unfolding parse_mem_info
parse_mem_info-unlines es out g h =
    let all : scan_lines mem_line (length (unlines (map (line_of 58) es)))
          (unlines (map (line_of 58) es)) (out, 0)
        ≡ over mem_line (map (line_of 58) es) (out, 0) =
      scan_lines-unlines mem_line (map (line_of 58) es) (out, 0) (AllLack-lines 58 es refl h) in
    (
      ap (λ (r : MemStats × ℕ). get g r.0) all ∙ over-latest g es (out, 0) h,
      ap (λ (r : MemStats × ℕ). not (r.1 == 0)) all ∙ over-seen es (out, 0) h,
    )

-- Where meminfo in the directory can be opened and what is read of it is a file of entries, a key
-- that begins with an ASCII byte other than white space and holds no separator and no newline, and a
-- value below 2^64 in each, that does not fill the buffer, CollectMem leaves in each field the value
-- of the last entry with that field's key, or what the field held before where there is none, and
-- its error is nil exactly when some entry's key is a field's.
pub collect_mem-unlines :
    (os : Os) (dir : Bytes) (es : List Entry) (out : MemStats) (g : MemField)
    → Lacks 0 dir
    → length dir + 8 < 256
    → AllEntries 58 es
    → os.open_file (join dir (codes "meminfo")) ≡ true
    → os.read_file (join dir (codes "meminfo")) 4096 ≡ some (unlines (map (line_of 58) es))
    → length (unlines (map (line_of 58) es)) < 4096
    → let (out', fine) = collect_mem os dir out in
      (get g out' ≡ latest g es (get g out)) × (fine ≡ recognises es)
unfolding collect_mem parse_file
collect_mem-unlines os dir es out g hd short h opened got fits =
    let bytes = unlines (map (line_of 58) es) in
    rw
      (read_kernel_file-contents os 256 4096 dir (codes "meminfo") bytes hd
        (refl, (refl, (refl, (refl, (refl, (refl, (refl, tt))))))) (omega arith) opened got)
      (if_ind
        (λ (r : MemStats × Bool). (get g r.0 ≡ latest g es (get g out)) × (r.1 ≡ recognises es))
        (length bytes == 4096) (λ e. absurd (ground arith))
        (λ _. parse_mem_info-unlines es out g h))
