-- ===== src/Memory/Cleanup.antt =====
-- Which servers are orphans, and what a cleanup leaves alone.
use thread_keeper.Common.{
  if◌then◌else◌, nat_beq_iff, Bool-cases, Option-cases, ◌==◌, ==_refl, nat_eq, pair_eq, length,
  filter, All, contains, Text, codes, text_eq, lower_char, ℕ, suc, ◌+◌, ◌-◌, ◌≤◌, ◌<◌, max, ◌≡◌,
  refl, ap, ◌∙◌, inl, inr, Bool, true, false, not, ◌&&◌, Option, some, List, [], ◌∷◌, ◌++◌, map,
  arith,
}
use thread_keeper.Memory.Guard.{Process}
use thread_keeper.Sync.Decimal.{fmt_nat}
use thread_keeper.Memory.Health.{
  Presence, Listed, any_suffix, like, pid_pattern, newest_heartbeat, heartbeat_age_for_pid,
  pid_alive, stale_heartbeat, is_orphan, classify, scan, Signal, sent, not_server, raised, Cleanup,
  signal_one, signal_all, cleanup,
}

any_suffix-all : (s : Text) → any_suffix (like []) s ≡ true
unfolding like
any_suffix-all [] = refl
any_suffix-all (c ∷ s) = any_suffix-all s

any_suffix-here : (f : Text → Bool) (s : Text) → f s ≡ true → any_suffix f s ≡ true
any_suffix-here f [] h = h
any_suffix-here f (c ∷ s) h = rw h refl

-- A pattern with `%` at its end takes every text that the pattern begins.
like-prefix : (p s : Text) → like (p ++ codes "%") (p ++ s) ≡ true
unfolding like
like-prefix [] s = any_suffix-all s
like-prefix (c ∷ p) s = elim (Bool-cases (c == 37)) [
  | inl e ↦
      rw (e, any_suffix-here (like (p ++ codes "%")) (p ++ s) (like-prefix p s)) (ground arith)
  | inr e ↦ elim (Bool-cases (c == 95)) [
    | inl d ↦ rw (e, d, like-prefix p s) refl
    | inr d ↦ rw (e, d, like-prefix p s, ==_refl (lower_char c)) refl
  ]
]

newest_heartbeat-ge :
    (pattern : Text) (before after : List Presence) (r : Presence)
    → like pattern r.session_id ≡ true
    → (h : ℕ) × (newest_heartbeat pattern (before ++ r ∷ after) ≡ some h) × (r.heartbeat_at ≤ h)
unfolding newest_heartbeat
newest_heartbeat-ge pattern [] after r l = elim (Option-cases (newest_heartbeat pattern after)) [
  | inl e ↦ (r.heartbeat_at, rw (l, e) refl, omega arith)
  | inr (k, e) ↦ (max r.heartbeat_at k, rw (l, e) refl, omega arith)
]
newest_heartbeat-ge pattern (b ∷ before) after r l =
    let i = newest_heartbeat-ge pattern before after r l in
    elim (Bool-cases (like pattern b.session_id)) [
      | inl e ↦ (max b.heartbeat_at i.0, rw (e, i.1) refl, omega (arith, i.2))
      | inr e ↦ (i.0, rw (e, i.1) refl, i.2)
    ]

recent-alive :
    (self parent : Bool) (a : ℕ) → a ≤ stale_heartbeat → is_orphan self parent (some a) ≡ false
unfolding is_orphan
recent-alive self parent a h = ground (arith, h)

age-recent :
    (now : ℕ) (presence : List Presence) (pid k : ℕ)
    → newest_heartbeat (pid_pattern pid) presence ≡ some k
    → 0 < k
    → heartbeat_age_for_pid now presence pid ≡ some (now - k)
unfolding heartbeat_age_for_pid
age-recent now presence pid k e h =
    rw (heartbeat_age_for_pid, e) (ground (arith, h, nat_beq_iff k 0))

-- The row of a session of a process.
abbrev pub session : ℕ → Text → ℕ → Presence
session pid suffix h = record {
  session_id = (codes "s_" ++ fmt_nat 1 pid ++ codes "_") ++ suffix;
  heartbeat_at = h;
}

-- A server is no orphan while a session of its pid has a heartbeat of the last five minutes.
pub classify_fresh :
    (self : ℕ) (alive : ℕ → Bool) (now : ℕ) (before after : List Presence) (h : ℕ) (suffix : Text)
    (p : Listed)
    → 0 < h
    → now ≤ h + 300
    → (classify self alive now (before ++ session p.pid suffix h ∷ after) p).is_orphaned ≡ false
unfolding classify pid_pattern
classify_fresh self alive now before after h suffix p pos new =
    let k =
      newest_heartbeat-ge (pid_pattern p.pid) before after (session p.pid suffix h)
        (like-prefix (codes "s_" ++ fmt_nat 1 p.pid ++ codes "_") suffix) in
    let e =
      age-recent now (before ++ session p.pid suffix h ∷ after) p.pid k.0 k.1
        (omega (arith, pos, k.2)) in
    rw e
      (recent-alive (p.pid == self) (pid_alive alive p.ppid) (now - k.0) (omega (arith, new, k.2)))

-- The listed servers that are neither this one nor have a living parent.
abbrev pub abandoned_pids : ℕ → (ℕ → Bool) → List Listed → List ℕ
abandoned_pids self alive listed =
    map (λ p. p.pid) (filter (λ p. not (p.pid == self) && not (pid_alive alive p.ppid)) listed)

orphan-cases :
    (self parent : Bool) (age : Option ℕ)
    → is_orphan self parent age ≡ true
    → (not self && not parent) ≡ true
unfolding is_orphan
orphan-cases false false age h = refl
orphan-cases true parent age h = h
orphan-cases false true age h = h

All-keep :
    {A : Type 0} (P : A → Type 0) (b : Bool) (x : A) (xs : List A)
    → (b ≡ true → P x)
    → All P xs
    → All P (if b then x ∷ xs else xs)
All-keep P true x xs h a = (h refl, a)
All-keep P false x xs h a = a

keep-contains :
    (b : Bool) (p : Listed) (ps : List Listed) (n : ℕ)
    → contains (map (λ q. q.pid) ps) n ≡ true
    → contains (map (λ q. q.pid) (if b then p ∷ ps else ps)) n ≡ true
keep-contains true p ps n h = ground (arith, h)
keep-contains false p ps n h = h

scan-orphans :
    (self : ℕ) (alive : ℕ → Bool) (now : ℕ) (presence : List Presence) (listed : List Listed)
    (ns : List ℕ)
    → ((n : ℕ) → contains (abandoned_pids self alive listed) n ≡ true → contains ns n ≡ true)
    → All
        (λ p. contains ns p.pid ≡ true)
        (filter (λ p. p.is_orphaned) (scan self alive now presence listed))
unfolding scan classify
scan-orphans self alive now presence [] ns f = tt
scan-orphans self alive now presence (p ∷ ps) ns f =
    let age = heartbeat_age_for_pid now presence p.pid in
    All-keep (λ q. contains ns q.pid ≡ true)
      (is_orphan (p.pid == self) (pid_alive alive p.ppid) age) (classify self alive now presence p)
      (filter (λ q. q.is_orphaned) (scan self alive now presence ps))
      (λ o.
        f p.pid
          (rw (orphan-cases (p.pid == self) (pid_alive alive p.ppid) age o, ==_refl p.pid) refl))
      (scan-orphans self alive now presence ps ns
        (λ n h. f n (keep-contains (not (p.pid == self) && not (pid_alive alive p.ppid)) p _ n h)))

signal_one-All :
    (P : ℕ → Type 0) (x : Signal) (n : ℕ) (c : Cleanup)
    → P n
    → All P c.killed
    → All P (signal_one x n c).killed
unfolding signal_one
signal_one-All P sent n c h a = (h, a)
signal_one-All P not_server n c h a = a
signal_one-All P raised n c h a = a

signal_all-All :
    (P : ℕ → Type 0) (signal : ℕ → Signal) (plan ps : List Process)
    → All (λ p. P p.pid) ps
    → All P (signal_all signal plan ps).killed
unfolding signal_all
signal_all-All P signal plan [] h = tt
signal_all-All P signal plan (p ∷ ps) (a, b) =
    signal_one-All P (signal p.pid) p.pid (signal_all signal plan ps) a
      (signal_all-All P signal plan ps b)

-- The number of processes that a cleanup accounts for.
abbrev pub accounted : Cleanup → ℕ
accounted c = length c.killed + length c.skipped + length c.failed

signal_one-accounted :
    (x : Signal) (n : ℕ) (c : Cleanup) → accounted (signal_one x n c) ≡ suc (accounted c)
unfolding signal_one
signal_one-accounted sent n c = omega arith
signal_one-accounted not_server n c = omega arith
signal_one-accounted raised n c = omega arith

signal_all-accounted :
    (signal : ℕ → Signal) (plan ps : List Process)
    → accounted (signal_all signal plan ps) ≡ length ps
unfolding signal_all
signal_all-accounted signal plan [] = refl
signal_all-accounted signal plan (p ∷ ps) =
    signal_one-accounted (signal p.pid) p.pid (signal_all signal plan ps)
    ∙ ap suc (signal_all-accounted signal plan ps)

-- A cleanup of a scan signals only listed processes that are not this one and have no living
-- parent, and accounts for each orphan of the scan; a dry run signals nothing.
pub cleanup_abandoned :
    (self : ℕ) (alive : ℕ → Bool) (now : ℕ) (presence : List Presence) (listed : List Listed)
    (dry_run : Bool) (signal : ℕ → Signal)
    → All
        (λ n. contains (abandoned_pids self alive listed) n ≡ true)
        (cleanup dry_run signal (scan self alive now presence listed)).killed
      × (accounted (cleanup dry_run signal (scan self alive now presence listed)) ≡ (
          if dry_run
          then 0
          else length (filter (λ p. p.is_orphaned) (scan self alive now presence listed))))
unfolding cleanup signal_all
cleanup_abandoned self alive now presence listed true signal = (tt, refl)
cleanup_abandoned self alive now presence listed false signal =
    let plan = filter (λ p. p.is_orphaned) (scan self alive now presence listed) in
    (
      signal_all-All (λ n. contains (abandoned_pids self alive listed) n ≡ true) signal plan plan
          (scan-orphans self alive now presence listed (abandoned_pids self alive listed)
            (λ n h. h)),
      signal_all-accounted signal plan plan,
    )
