-- ===== src/Tasks/Terminal.antt =====
-- A handle that has reached an end keeps it, and only its owner reads or cancels it.
use thread_keeper.Common.{
  ◌==◌, ==_refl, nat_eq, pair_eq, All, is_none, Text, text_eq, ℕ, ◌≡◌, refl, ap, ◌∙◌, ◌⊎◌, inl, inr,
  Bool, true, false, ◌&&◌, Option, none, some, List, [], ◌∷◌, arith,
}
use thread_keeper.Common.Int.{ℤ}
use thread_keeper.Tasks.Handle.{
  working, completed, cancelled, is_terminal, Handle, Internal, Store, owned, update_terminal,
  sync_with, read_task, cancel_handle, request_cancel,
}

-- Reads and cancellations of a handle, after its child ended as `t` says and while the row is kept.
pub data Life (result_of : Text → Option ℤ → Text) (t : Internal) : Handle → Handle → Type 0 where
  created : {h : Handle} → Life result_of t h h
  then_read :
      {g h : Handle} (now : ℕ)
      → Life result_of t g h
      → Life result_of t g (sync_with result_of now (some t) h)
  then_cancel :
      {g h : Handle} (now : ℕ) (accepted : Bool)
      → Life result_of t g h
      → Life result_of t g (cancel_handle now accepted h)

-- A handle that ended as completed, with a result and no cancellation.
pub record Completed (h : Handle) : Type 0 where
  pub is_completed : h.status ≡ completed
  pub not_cancelled : h.cancel_accepted_at ≡ none
  pub result : Text
  pub has_result : h.result_json ≡ some result

read-Completed :
    (result_of : Text → Option ℤ → Text) (now : ℕ) (t : Internal) (h : Handle)
    → is_none t.ended_at ≡ false
    → Completed h
    → sync_with result_of now (some t) h ≡ h
unfolding update_terminal
read-Completed result_of now t h e c =
    rw (c.is_completed, e, c.not_cancelled, c.has_result, ==_refl c.result) refl

cancel-terminal :
    (now : ℕ) (accepted : Bool) (h : Handle)
    → is_terminal h.status ≡ true
    → cancel_handle now accepted h ≡ h
cancel-terminal now accepted h e = ground (arith, e)

-- A handle at its end.
abbrev pub Settled : Handle → Type 0
Settled h = (h.status ≡ cancelled) ⊎ Completed h

read-Settled :
    (result_of : Text → Option ℤ → Text) (now : ℕ) (t : Internal) (h : Handle)
    → is_none t.ended_at ≡ false
    → Settled h
    → sync_with result_of now (some t) h ≡ h
read-Settled result_of now t h e (inl c) = rw c refl
read-Settled result_of now t h e (inr c) = read-Completed result_of now t h e c

Settled-terminal : (h : Handle) → Settled h → is_terminal h.status ≡ true
Settled-terminal h (inl c) = rw c refl
Settled-terminal h (inr c) = rw c.is_completed refl

Life-Settled :
    (result_of : Text → Option ℤ → Text) (t : Internal) (g h : Handle)
    → is_none t.ended_at ≡ false
    → Life result_of t g h
    → Settled g
    → h ≡ g
Life-Settled result_of t g h e created s = refl
Life-Settled result_of t g h e (then_read now l) s =
    let same = Life-Settled result_of t g _ e l s in
    ap (sync_with result_of now (some t)) same ∙ read-Settled result_of now t g e s
Life-Settled result_of t g h e (then_cancel now accepted l) s =
    let same = Life-Settled result_of t g _ e l s in
    ap (cancel_handle now accepted) same ∙ cancel-terminal now accepted g (Settled-terminal g s)

first_read :
    (result_of : Text → Option ℤ → Text) (now : ℕ) (t : Internal) (h : Handle)
    → is_none t.ended_at ≡ false
    → h.status ≡ working
    → Settled (sync_with result_of now (some t) h)
unfolding update_terminal
first_read result_of now t h e w = go h.cancel_accepted_at refl h.result_json refl
  where
    go :
        (o : Option ℕ)
        → h.cancel_accepted_at ≡ o
        → (r : Option Text) → h.result_json ≡ r
        → Settled (sync_with result_of now (some t) h)
    go none p none q = inr (record {
      is_completed = rw (w, e, p) refl;
      not_cancelled = rw (w, e, p) refl;
      result = result_of h.internal_task_id t.return_code;
      has_result = rw (w, e, p, q) refl;
    })
    go none p (some r) q = inr (record {
      is_completed = rw (w, e, p) refl;
      not_cancelled = rw (w, e, p) refl;
      result = r;
      has_result = rw (w, e, p, q) refl;
    })
    go (some a) p r q = inl (rw (w, e, p) refl)

-- Once a child has ended, the first read of a handle that was working settles it: it stays as that
-- read left it, completed or cancelled, through all later reads and cancellations, while the row of
-- the child is kept.
pub first_read-final :
    (result_of : Text → Option ℤ → Text) (now : ℕ) (t : Internal) (h k : Handle)
    → is_none t.ended_at ≡ false
    → h.status ≡ working
    → Life result_of t (sync_with result_of now (some t) h) k
    → Settled (sync_with result_of now (some t) h) × (k ≡ sync_with result_of now (some t) h)
first_read-final result_of now t h k e w l =
    let s = first_read result_of now t h e w in
    (s, Life-Settled result_of t (sync_with result_of now (some t) h) k e l s)

-- No handle of this id has the owner.
abbrev pub Foreign : Text → Text → Handle → Type 0
Foreign task_id owner h = (h.task_id == task_id && h.owner_key == owner) ≡ false

owned-Foreign :
    (task_id owner : Text) (hs : List Handle)
    → All (Foreign task_id owner) hs
    → owned task_id owner hs ≡ none
unfolding owned
owned-Foreign task_id owner [] h = refl
owned-Foreign task_id owner (g ∷ hs) h = rw h.0 (owned-Foreign task_id owner hs h.1)

-- To a caller who does not own it, a handle is unknown: the caller can neither read nor cancel it.
pub Foreign-unknown :
    (result_of : Text → Option ℤ → Text) (now : ℕ) (accepted : Bool) (task_id owner : Text)
    (s : Store)
    → All (Foreign task_id owner) s.handles
    → (read_task result_of now task_id owner s ≡ none)
      × (request_cancel now accepted task_id owner s ≡ none)
unfolding read_task request_cancel
Foreign-unknown result_of now accepted task_id owner s h = (
  rw (owned-Foreign task_id owner s.handles h) refl,
  rw (owned-Foreign task_id owner s.handles h) refl,
)
