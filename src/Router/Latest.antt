-- ===== src/Router/Latest.antt =====
-- The last pass, and how many passes are running.
use thread_keeper.Common.{
  ltb, if◌then◌else◌, Bool-cases, Option-cases, ℕ, suc, ◌+◌, ◌≤◌, ◌≡◌, refl, ap, ◌∙◌, subst, inl,
  inr, true, false, not, ◌||◌, Option, none, some, List, [], ◌∷◌, map, arith,
}
use thread_keeper.Router.Routes.{is_running, RouterPass, latest_pass}
use thread_keeper.Router.Routes.{is_running, RouterPass, latest_pass}

-- How many passes are running.
abbrev pub running_passes : List RouterPass → ℕ
running_passes [] = 0
running_passes (p ∷ ps) = (if is_running p.status then 1 else 0) + running_passes ps

unfoldable pub option_map : {A B : Type 0} → (A → B) → Option A → Option B
option_map f none = none
option_map f (some a) = some (f a)

-- A change of a pass that keeps its start and starts no pass again.
abbrev pub Keeps : (RouterPass → RouterPass) → Type 0
Keeps f =
    (p : RouterPass)
    → ((f p).started_at ≡ p.started_at)
      × ((not (is_running (f p).status) || is_running p.status) ≡ true)

pub running-map :
    (f : RouterPass → RouterPass)
    → Keeps f
    → (ps : List RouterPass) → running_passes (map f ps) ≤ running_passes ps
running-map f k [] = omega arith
running-map f k (p ∷ ps) = ground (arith, (k p).1, running-map f k ps)

pick :
    (f : RouterPass → RouterPass)
    → Keeps f
    → (p q : RouterPass)
    → (if ltb (f q).started_at (f p).started_at then some (f p) else some (f q))
      ≡ option_map f (if ltb q.started_at p.started_at then some p else some q)
unfolding option_map
pick f k p q = elim (Bool-cases (ltb q.started_at p.started_at)) [
  | inl l ↦
      let m : ltb (f q).started_at (f p).started_at ≡ true = ground (arith, l, (k p).0, (k q).0) in
      simp (l, m)
  | inr l ↦
      let m : ltb (f q).started_at (f p).started_at ≡ false = ground (arith, l, (k p).0, (k q).0) in
      simp (l, m)
]

pub latest-map :
    (f : RouterPass → RouterPass)
    → Keeps f
    → (ps : List RouterPass) → latest_pass (map f ps) ≡ option_map f (latest_pass ps)
unfolding latest_pass option_map
latest-map f k [] = refl
latest-map f k (p ∷ ps) = elim (Option-cases (latest_pass ps)) [
  | inl n ↦ rw (latest-map f k ps, n) refl
  | inr (q, n) ↦ rw (latest-map f k ps, n) (pick f k p q)
]

head-running :
    (f : RouterPass → RouterPass)
    → Keeps f
    → (q : RouterPass) (ps : List RouterPass) → is_running q.status ≡ true
    → is_running (f q).status ≡ false
    → suc (running_passes (map f (q ∷ ps))) ≤ running_passes (q ∷ ps)
head-running f k q ps r s = rw (r, s) (omega (arith, running-map f k ps))

tail-running :
    (f : RouterPass → RouterPass)
    → Keeps f
    → (q : RouterPass) (ps : List RouterPass) → suc (running_passes (map f ps)) ≤ running_passes ps
    → suc (running_passes (map f (q ∷ ps))) ≤ running_passes (q ∷ ps)
tail-running f k q ps h = ground (arith, (k q).1, h)

pub latest-running :
    (f : RouterPass → RouterPass)
    → Keeps f
    → (ps : List RouterPass) (p : RouterPass) → latest_pass ps ≡ some p
    → is_running p.status ≡ true
    → is_running (f p).status ≡ false
    → suc (running_passes (map f ps)) ≤ running_passes ps
unfolding latest_pass
latest-running f k [] p e r s = absurd (ground (arith, e))
latest-running f k (q ∷ ps) p e r s = elim (Option-cases (latest_pass ps)) [
  | inl n ↦
      let g : p ≡ q = ground (arith, n, e) in
      head-running f k q ps (subst (λ x. is_running x.status ≡ true) g r)
        (subst (λ x. is_running (f x).status ≡ false) g s)
  | inr (t, n) ↦ elim (Bool-cases (ltb t.started_at q.started_at)) [
    | inl l ↦
        let g : p ≡ q = ground (arith, n, e, l) in
        head-running f k q ps (subst (λ x. is_running x.status ≡ true) g r)
          (subst (λ x. is_running (f x).status ≡ false) g s)
    | inr l ↦
        let g : t ≡ p = ground (arith, n, e, l) in
        tail-running f k q ps (latest-running f k ps p (n ∙ ap some g) r s)
  ]
]
