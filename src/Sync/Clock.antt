-- ===== src/Sync/Clock.antt =====
-- sync/identity.py: the hybrid logical clock of a node, and its text form.
pub mod Order
pub mod Parse
pub mod Causality
use thread_keeper.Common.{
  nat_beq, if◌then◌else◌, Text, codes, ℕ, ◌&&◌, Option, none, some, [], ◌∷◌, ◌++◌,
}
use thread_keeper.Common.Int.{ℤ, pos, ◌+ℤ◌, max_ℤ, beq_ℤ, ltb_ℤ}
use thread_keeper.Sync.Decimal.{int_of, fmt_int}

-- The singleton row of `sync_state`.
pub record Clock : Type 0 where
  pub node_id : Text
  pub phys : ℤ
  pub counter : ℤ

-- `_fmt`
unfoldable pub fmt_hlc : ℤ → ℤ → Text → Text
fmt_hlc phys counter node = fmt_int 15 phys ++ codes ":" ++ fmt_int 6 counter ++ codes ":" ++ node

-- `s.split(":", 1)`, where `s` holds a colon.
abbrev pub split_step : ℕ → Text → Option (Text × Text) → Option (Text × Text)
split_step c s none = if nat_beq c b':' then some ([], s) else none
split_step c s (some (a, b)) = if nat_beq c b':' then some ([], s) else some (c ∷ a, b)

unfoldable pub split_colon : Text → Option (Text × Text)
split_colon [] = none
split_colon (c ∷ s) = split_step c s (split_colon s)

abbrev pub parsed : Option ℤ → Option ℤ → Text → ℤ × ℤ × Text
parsed (some phys) (some counter) node = (phys, counter, node)
parsed _ _ node = (pos 0, pos 0, [])

abbrev pub parse_tail : Text → Option (Text × Text) → ℤ × ℤ × Text
parse_tail phys none = (pos 0, pos 0, [])
parse_tail phys (some (counter, node)) = parsed (int_of phys) (int_of counter) node

abbrev pub parse_head : Option (Text × Text) → ℤ × ℤ × Text
parse_head none = (pos 0, pos 0, [])
parse_head (some (phys, rest)) = parse_tail phys (split_colon rest)

-- `hlc.split(":", 2)` must have three parts.
unfoldable pub parse_hlc : Text → ℤ × ℤ × Text
unfolding split_colon
parse_hlc hlc = parse_head (split_colon hlc)

-- The send rule. The result is the clock as it is stored, and the text of its new value.
unfoldable pub hlc_now : ℕ → Clock → Clock × Text
hlc_now now c =
    let ahead = ltb_ℤ c.phys (pos now) in
    let phys = if ahead then pos now else c.phys in
    let counter = if ahead then pos 0 else c.counter +ℤ pos 1 in
    (record c { phys = phys; counter = counter }, fmt_hlc phys counter c.node_id)

abbrev pub absorb_counter : ℤ → ℤ → ℤ → ℤ → ℤ → ℤ
absorb_counter phys last_phys last_ctr r_phys r_ctr =
    if beq_ℤ phys last_phys && beq_ℤ phys r_phys
    then max_ℤ last_ctr r_ctr +ℤ pos 1
    else if beq_ℤ phys last_phys
    then last_ctr +ℤ pos 1
    else if beq_ℤ phys r_phys
    then r_ctr +ℤ pos 1
    else pos 0

-- The receive rule, for a remote time and counter.
unfoldable pub absorb : ℕ → ℤ → ℤ → Clock → Clock
absorb now r_phys r_ctr c =
    let phys = max_ℤ (max_ℤ c.phys r_phys) (pos now) in
    record c { phys = phys; counter = absorb_counter phys c.phys c.counter r_phys r_ctr }

-- `hlc_update` is the same, committed.
unfoldable pub hlc_absorb : ℕ → Text → Clock → Clock × Text
hlc_absorb now remote c =
    let r = parse_hlc remote in
    let c' = absorb now r.0 r.1 c in (c', fmt_hlc c'.phys c'.counter c'.node_id)

-- `_ADVANCE` of the capture triggers (sync/capture.py), and the text that they stamp.
unfoldable pub advance : ℕ → Clock → Clock × Text
advance now c =
    let phys = max_ℤ c.phys (pos now) in
    let counter = if ltb_ℤ c.phys (pos now) then pos 0 else c.counter +ℤ pos 1 in
    (record c { phys = phys; counter = counter }, fmt_hlc phys counter c.node_id)
