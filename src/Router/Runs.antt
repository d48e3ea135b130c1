-- ===== src/Router/Runs.antt =====
-- The runs of the router: its ticks, the writes of its children, and the tasks that others change.
use thread_keeper.Common.{
  leb, if◌then◌else◌, Option-cases, ◌==◌, nat_eq, pair_eq, Text, codes, text_eq, is_empty, strip, ℕ,
  ◌+◌, ◌≤◌, ◌≡◌, refl, inl, inr, Bool, true, false, not, ◌&&◌, Option, none, some, List, [], ◌∷◌,
  arith,
}
use thread_keeper.Router.Tick.{
  recorded, Answer, Task, Db, Inputs, run_router_pass, Caller, model_route_write, write_to,
  locked_tick, tick_state, TickState, act, decide, poll_interval, record_decisions,
  write_authorized, not_authorized, not_a_list, unknown_pass, invalid_decisions, is_complete,
  already_recorded, not_running,
}
use thread_keeper.Router.Decisions.{Refusal, Decision, decision_errors}
use thread_keeper.Router.Routes.{is_running, Options, RouterPass, get_pass, latest_pass}
use thread_keeper.Daemon.State.{State, claim_pass}

-- How many passes have an id.
abbrev pub number : Text → List RouterPass → ℕ
number id [] = 0
number id (p ∷ ps) = (if p.pass_id == id then 1 else 0) + number id ps

-- The states at a time: a new pass has an id of its own, and the clock does not go back.
pub data Run : ℕ → Db → Type 0 where
  begin :
      {t : ℕ} (tasks : List Task)
      → Run t (record { routes = []; passes = []; tasks = tasks; daemons = []; launches = [] })
  tick :
      {t : ℕ} {db : Db} (i : Inputs)
      → Run t db
      → t ≤ i.now
      → number i.new_id db.passes ≡ 0
      → Run i.now (run_router_pass i db)
  write :
      {t : ℕ} {db : Db} (c : Caller) (options : Options) (now : ℕ) (id : Text)
      (decisions : Option (List Decision))
      → Run t db
      → t ≤ now
      → Run now (model_route_write c options now id decisions db).1
  others : {t : ℕ} {db : Db} (tasks : List Task) → Run t db → Run t (record db { tasks = tasks })

choose {ℓ} :
    {A : Type ℓ} (P : A → Type 0) (b : Bool) (x y : A)
    → (b ≡ true → P x)
    → (b ≡ false → P y)
    → P (if b then x else y)
choose P true x y h k = h refl
choose P false x y h k = k refl

-- What a tick does to the tables: nothing but the claim of the pass, or the action that it decides.
pub tick-cases :
    (P : Db → Type 0) (i : Inputs) (db : Db)
    → P db
    → ((daemons : State) → P (record db { daemons = daemons }))
    → ((s : TickState) (daemons : State) (tasks : List Task)
        → s.last_pass ≡ latest_pass db.passes
        → s.now ≡ i.now
        → s.force ≡ i.force
        → P (act i s (decide s) (record db { tasks = tasks; daemons = daemons })))
    → P (run_router_pass i db)
unfolding run_router_pass locked_tick tick_state
tick-cases P i db h k l =
    let g =
      claim_pass i.claim_fails i.scheduled (codes "model_router") (poll_interval db.passes) i.now
        db.daemons in
    let claimed : Db = record db { daemons = g.1 } in
    let t = tick_state i claimed in
    choose P (leb i.interval_s 0 && not i.force) db
      (if not g.0 then claimed else locked_tick i claimed) (λ e. h)
      (λ e.
        choose P (not g.0) claimed (locked_tick i claimed) (λ d. k g.1)
          (λ d.
            choose P (not i.locked) claimed (act i t.0 (decide t.0) t.1) (λ m. k g.1)
              (λ m. l t.0 g.1 t.1.tasks refl refl refl)))

write_to-cases :
    (P : Db → Type 0) (p : RouterPass) (ds : List Decision) (errors : List Refusal) (now : ℕ)
    (db : Db)
    → P db
    → (is_running p.status ≡ true → is_empty errors ≡ true → P (record_decisions p ds now db))
    → P (write_to p ds errors now db).1
unfolding write_to
write_to-cases P p ds errors now db h k =
    let good : Answer × Db = (recorded, record_decisions p ds now db) in
    let checked : Answer × Db =
      if not (is_empty errors) then (invalid_decisions errors, db) else good in
    choose (λ (r : Answer × Db). P r.1) (is_complete p.status) (already_recorded, db)
      (if not (is_running p.status) then (not_running, db) else checked) (λ a. h)
      (λ a.
        choose (λ (r : Answer × Db). P r.1) (not (is_running p.status)) (not_running, db) checked
          (λ b. h)
          (λ b.
            choose (λ (r : Answer × Db). P r.1) (not (is_empty errors))
              (invalid_decisions errors, db) good (λ d. h)
              (λ d. k (ground (arith, b)) (ground (arith, d)))))

-- What a write does to the tables: nothing, or it records decisions without errors for a running pass.
pub write-cases :
    (P : Db → Type 0) (c : Caller) (options : Options) (now : ℕ) (id : Text)
    (decisions : Option (List Decision)) (db : Db)
    → P db
    → ((p : RouterPass) (ds : List Decision)
        → get_pass (strip id) db.passes ≡ some p
        → is_running p.status ≡ true
        → is_empty (decision_errors ds p.roles options) ≡ true
        → P (record_decisions p ds now db))
    → P (model_route_write c options now id decisions db).1
unfolding model_route_write
write-cases P c options now id decisions db h k =
    choose (λ (r : Answer × Db). P r.1) (not (write_authorized c (strip id))) (not_authorized, db)
      (elim decisions [
        | none ↦ (not_a_list, db)
        | some ds ↦ elim (get_pass (strip id) db.passes) [
          | none ↦ (unknown_pass, db)
          | some p ↦ write_to p ds (decision_errors ds p.roles options) now db
        ]
      ])
      (λ e. h)
      (λ e. elim (Option-cases decisions) [
        | inl n ↦ rw n h
        | inr (ds, n) ↦ rw n (elim (Option-cases (get_pass (strip id) db.passes)) [
          | inl m ↦ rw m h
          | inr (p, m) ↦ rw m (
              write_to-cases P p ds (decision_errors ds p.roles options) now db h
                (λ r x. k p ds m r x))
        ])
      ])
