-- ===== src/Cgroup/Stat/RoundTrip.antt =====
-- What the parser makes of a file that was printed from entries.

use edge_telemetry_daemon.Shared.{
  ℕ, ◌+◌, ◌≡◌, sym, refl, ap, ◌∙◌, Bool, true, false, Option, none, some, List, [], ◌∷◌, map, arith,
  if◌then◌else◌, ◌==◌, length, ◌<◌, if_ind,
}
use edge_telemetry_daemon.Shared.Scan.Lines.{Lacks}
use edge_telemetry_daemon.KernelFile.{Os}
use edge_telemetry_daemon.KernelFile.Bounds.{join, read_kernel_file-contents}
use edge_telemetry_daemon.Shared.Text.{Bytes, codes, equal, equal→≡}
use edge_telemetry_daemon.Shared.Scan.Lines.{unlines, over, scan_lines-unlines}
use edge_telemetry_daemon.Shared.Scan.Entries.{
  Entry, key_of, value_of, line_of, AllEntries, AllLack-lines, IsEntry, read_entry-line_of,
}
use edge_telemetry_daemon.Cgroup.Stat.{
  CpuStat, StatField, of_usage_usec, of_nr_periods, of_nr_throttled, of_throttled_usec, field_of,
  assign, store, stat_line, parse_cpu_stat, parse_file, read_cpu_stat, zero_stat,
}

abbrev tag : StatField → ℕ
tag of_usage_usec = 0
tag of_nr_periods = 1
tag of_nr_throttled = 2
tag of_throttled_usec = 3

abbrev pub get : StatField → CpuStat → ℕ
get of_usage_usec s = s.usage_usec
get of_nr_periods s = s.nr_periods
get of_nr_throttled s = s.nr_throttled
get of_throttled_usec s = s.throttled_usec

get-assign :
    (f g : StatField) (v : ℕ) (s : CpuStat)
    → get g (assign f v s) ≡ (if tag f == tag g then v else get g s)
unfolding assign
get-assign of_usage_usec of_usage_usec v s = refl
get-assign of_usage_usec _ v s = refl
get-assign of_nr_periods of_usage_usec v s = refl
get-assign of_nr_periods _ v s = refl
get-assign of_nr_throttled of_usage_usec v s = refl
get-assign of_nr_throttled _ v s = refl
get-assign of_throttled_usec of_usage_usec v s = refl
get-assign of_throttled_usec _ v s = refl

-- The key of a field in the file.
abbrev name : StatField → Bytes
name of_usage_usec = codes "usage_usec"
name of_nr_periods = codes "nr_periods"
name of_nr_throttled = codes "nr_throttled"
name of_throttled_usec = codes "throttled_usec"

abbrev names : Option StatField → StatField → Bool
names none g = false
names (some f) g = tag f == tag g

equal-name : (f g : StatField) → equal (name f) (name g) ≡ (tag f == tag g)
unfolding equal
equal-name of_usage_usec of_usage_usec = refl
equal-name of_usage_usec _ = refl
equal-name of_nr_periods of_usage_usec = refl
equal-name of_nr_periods _ = refl
equal-name of_nr_throttled of_usage_usec = refl
equal-name of_nr_throttled _ = refl
equal-name of_throttled_usec of_usage_usec = refl
equal-name of_throttled_usec _ = refl

-- The switch took the case of `f`.
stored :
    (f g : StatField) (key : Bytes)
    → equal key (name f) ≡ true
    → (tag f == tag g) ≡ equal key (name g)
stored f g key hit = sym (ap (λ k. equal k (name g)) (equal→≡ key (name f) hit) ∙ equal-name f g)

missed :
    (key : Bytes) (g : StatField)
    → equal key (name of_usage_usec) ≡ false
    → equal key (name of_nr_periods) ≡ false
    → equal key (name of_nr_throttled) ≡ false
    → equal key (name of_throttled_usec) ≡ false
    → false ≡ equal key (name g)
missed key of_usage_usec m0 m1 m2 m3 = sym m0
missed key of_nr_periods m0 m1 m2 m3 = sym m1
missed key of_nr_throttled m0 m1 m2 m3 = sym m2
missed key of_throttled_usec m0 m1 m2 m3 = sym m3

-- The switch stores to the field that the key names, if any.
names-field_of : (key : Bytes) (g : StatField) → names (field_of key) g ≡ equal key (name g)
unfolding field_of
names-field_of key g =
    if_ind (λ (o : Option StatField). names o g ≡ equal key (name g))
      (equal key (name of_usage_usec)) (λ hit. stored of_usage_usec g key hit)
      (λ m0.
        if_ind (λ (o : Option StatField). names o g ≡ equal key (name g))
          (equal key (name of_nr_periods)) (λ hit. stored of_nr_periods g key hit)
          (λ m1.
            if_ind (λ (o : Option StatField). names o g ≡ equal key (name g))
              (equal key (name of_nr_throttled)) (λ hit. stored of_nr_throttled g key hit)
              (λ m2.
                if_ind (λ (o : Option StatField). names o g ≡ equal key (name g))
                  (equal key (name of_throttled_usec)) (λ hit. stored of_throttled_usec g key hit)
                  (λ m3. missed key g m0 m1 m2 m3))))

-- The value of the last entry with the field's key, else the one from before.
pub latest : StatField → List Entry → ℕ → ℕ
latest g [] old = old
latest g (e ∷ es) old = latest g es (if equal (key_of e) (name g) then value_of e else old)

get-store :
    (g : StatField) (o : Option StatField) (v : ℕ) (s : CpuStat)
    → get g (store o v s) ≡ (if names o g then v else get g s)
unfolding store
get-store g none v s = refl
get-store g (some f) v s = get-assign f g v s

stat_line-line_of :
    (e : Entry) (s : CpuStat)
    → IsEntry 32 e
    → stat_line (line_of 32 e) s ≡ store (field_of (key_of e)) (value_of e) s
unfolding stat_line
stat_line-line_of e s h = simp (stat_line, read_entry-line_of 32 e h)

over-latest :
    (g : StatField) (es : List Entry) (s : CpuStat)
    → AllEntries 32 es
    → get g (over stat_line (map (line_of 32) es) s) ≡ latest g es (get g s)
unfolding over latest
over-latest g [] s h = refl
over-latest g (e ∷ es) s (h, hs) =
    over-latest g es (stat_line (line_of 32 e) s) hs
    ∙ ap (λ (x : CpuStat). latest g es (get g x)) (stat_line-line_of e s h)
    ∙ ap (latest g es) (get-store g (field_of (key_of e)) (value_of e) s)
    ∙ ap (λ b. latest g es (if b then value_of e else get g s)) (names-field_of (key_of e) g)

get-zero : (g : StatField) → get g zero_stat ≡ 0
get-zero of_usage_usec = refl
get-zero of_nr_periods = refl
get-zero of_nr_throttled = refl
get-zero of_throttled_usec = refl

parse_cpu_stat-unlines :
    (es : List Entry) (g : StatField)
    → AllEntries 32 es
    → get g (parse_cpu_stat (unlines (map (line_of 32) es))) ≡ latest g es 0
unfolding parse_cpu_stat
parse_cpu_stat-unlines es g h =
    ap (get g)
      (scan_lines-unlines stat_line (map (line_of 32) es) zero_stat (AllLack-lines 32 es refl h))
    ∙ over-latest g es zero_stat h
    ∙ ap (latest g es) (get-zero g)

-- Where cpu.stat in the root can be opened and what is read of it is a file of entries, a key that
-- begins with an ASCII byte other than white space and holds no separator and no newline, and a value
-- below 2^64 in each, ReadCPUStat gives in each field the value of the last entry with that
-- field's key, and 0 where there is none.
pub read_cpu_stat-unlines :
    (os : Os) (root : Bytes) (es : List Entry)
    → Lacks 0 root
    → length root + 9 < 4096
    → AllEntries 32 es
    → os.open_file (join root (codes "cpu.stat")) ≡ true
    → os.read_file (join root (codes "cpu.stat")) 4096 ≡ some (unlines (map (line_of 32) es))
    → (stat : CpuStat) × (read_cpu_stat os root ≡ some stat)
      × (stat.usage_usec ≡ latest of_usage_usec es 0)
      × (stat.nr_periods ≡ latest of_nr_periods es 0)
      × (stat.nr_throttled ≡ latest of_nr_throttled es 0)
      × (stat.throttled_usec ≡ latest of_throttled_usec es 0)
unfolding read_cpu_stat parse_file
read_cpu_stat-unlines os root es hr short h opened got =
    let bytes = unlines (map (line_of 32) es) in
    (
      parse_cpu_stat bytes,
      rw
          (read_kernel_file-contents os 4096 4096 root (codes "cpu.stat") bytes hr
            (refl, (refl, (refl, (refl, (refl, (refl, (refl, (refl, tt)))))))) (omega arith) opened
            got)
          refl,
      parse_cpu_stat-unlines es of_usage_usec h,
      parse_cpu_stat-unlines es of_nr_periods h,
      parse_cpu_stat-unlines es of_nr_throttled h,
      parse_cpu_stat-unlines es of_throttled_usec h,
    )
