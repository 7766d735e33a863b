-- ===== src/Bq/Buffers.antt =====
-- WaitForStableTable: what Metadata has told when it returns.
use etl_gardener.Base.{
  ℕ, suc, zero, ◌+◌, ◌-◌, ◌≤◌, ◌<◌, ◌≡◌, ◌⊎◌, inl, inr, refl, Bool, true, false, String, Option,
  none, some, ltb, ◌==◌, str_eq, ◌∙◌, arith, Bool-cases, if◌then◌else◌,
}
use etl_gardener.World.{M, Returns}
use etl_gardener.Bq.Stable.{
  StableOutside, StableRound, stable, gave_up, unstable, metadata_error, error_timeout, judge_table,
  table_round, end_table_round, table_loop, table_pause, wait_for_stable_table, minutes,
}

-- What a call of Metadata, from `w` to `w'`, tells: the time `ok` of the last success, the time `full` of
-- the last report of a buffer, and whether the last answer is `eof`.
abbrev pub Tells :
    (out : StableOutside)
    → (out.World → ℕ)
    → (out.World → ℕ)
    → (out.World → Bool)
    → Option String
    → Bool
    → out.World
    → out.World
    → Type 0
Tells out ok full eof none true w w' = (ok w' ≤ out.clock w') × (full w' ≡ full w)
Tells out ok full eof none false w w' = (ok w' ≤ out.clock w') × (full w' ≤ out.clock w')
Tells out ok full eof (some e) empty w w' =
    (ok w' ≡ ok w) × (full w' ≡ full w) × (eof w' ≡ str_eq e "EOF")

-- Only Metadata changes what it has told, and the clock does not go back.
pub record Told (out : StableOutside) (ok full : out.World → ℕ) (eof : out.World → Bool)
    : Type 0 where
  pub told :
      (w : out.World)
      → let r = out.metadata w in Tells out ok full eof (metadata_error out r.0.1 r.1) r.0.0 w r.1
  pub pause_keeps :
      (w : out.World) → (ok (table_pause out w) ≡ ok w) × (full (table_pause out w) ≡ full w)
  pub metadata_later : (w : out.World) → out.clock w ≤ out.clock (out.metadata w).1
  pub pause_later : (w : out.World) → out.clock w ≤ out.clock (table_pause out w)

module _ (out : StableOutside) (ok full : out.World → ℕ) (eof : out.World → Bool)
    (x : Told out ok full eof) where
  abbrev pub Verdict : Option String → out.World → Type 0
  Verdict none w = (eof w ≡ true) ⊎ (full w + minutes 60 < out.clock w)
  Verdict (some e) w = ok w + error_timeout out < out.clock w

  -- What the two times of the loop stand for.
  abbrev Held : ℕ → ℕ → out.World → Type 0
  Held since deadline w =
      ((since ≡ 0) ⊎ (full w ≤ since))
      × (ok w + error_timeout out ≤ deadline)
      × (full w ≤ out.clock w)

  abbrev Judged : StableRound → out.World → Type 0
  Judged stable w = Verdict none w
  Judged (gave_up e) w = ok w + error_timeout out < out.clock w
  Judged (unstable since deadline) w = Held since deadline w

  emptied-Judged :
      (w : out.World) (since first deadline : ℕ)
      → full w ≤ first
      → ok w ≤ out.clock w
      → full w ≤ out.clock w
      → Judged
          (if ltb (minutes 60) (out.clock w - first)
            then stable
            else unstable first (out.clock w + error_timeout out))
          w
  emptied-Judged w since first deadline h k l =
      elim (Bool-cases (ltb (minutes 60) (out.clock w - first))) [
        | inl a ↦ rw a (inr (ground (arith, a, h)))
        | inr a ↦ rw a (inr h, omega (arith, k), l)
      ]

  judge_table-Judged :
      (e : Option String) (empty : Bool) (since deadline : ℕ) (w w' : out.World)
      → Held since deadline w
      → out.clock w ≤ out.clock w'
      → Tells out ok full eof e empty w w'
      → Judged (judge_table out e empty (out.clock w') since deadline) w'
  judge_table-Judged none false since deadline w w' h l t = (inl refl, omega (arith, t.0), t.1)
  judge_table-Judged none true since deadline w w' h l t =
      let fresh : full w' ≤ out.clock w' = omega (arith, h.2, l, t.1) in
      elim (Bool-cases (since == 0)) [
        | inl a ↦ rw a (emptied-Judged w' since (out.clock w') deadline fresh t.0 fresh)
        | inr a ↦
            let g : full w' ≤ since = elim h.0 [
              | inl z ↦ absurd (ground (arith, a, z))
              | inr g ↦ omega (arith, g, t.1)
            ] in
            rw a (emptied-Judged w' since since deadline g t.0 fresh)
      ]
  judge_table-Judged (some e) empty since deadline w w' h l t = elim (Bool-cases (str_eq e "EOF")) [
    | inl a ↦ rw a (inl (t.2 ∙ a))
    | inr a ↦ elim (Bool-cases (ltb deadline (out.clock w'))) [
      | inl b ↦ rw (a, b) (ground (arith, b, h.1, t.0))
      | inr b ↦
          let s : (since ≡ 0) ⊎ (full w' ≤ since) = elim h.0 [
            | inl z ↦ inl z
            | inr g ↦ inr (omega (arith, g, t.1))
          ] in
          rw (a, b) (s, omega (arith, h.1, t.0), omega (arith, h.2, l, t.1))
    ]
  ]

  end_table_round-Verdict :
      (rest : ℕ → ℕ → M out.World (Option String)) (r : StableRound) (w : out.World)
      → ((since deadline : ℕ) (w' : out.World)
          → Held since deadline w'
          → Returns Verdict (rest since deadline w'))
      → Judged r w
      → Returns Verdict (end_table_round out rest r w)
  end_table_round-Verdict rest stable w k j = j
  end_table_round-Verdict rest (gave_up e) w k j = j
  end_table_round-Verdict rest (unstable since deadline) w k j =
      let p = x.pause_keeps w in
      let s : (since ≡ 0) ⊎ (full (table_pause out w) ≤ since) = elim j.0 [
        | inl z ↦ inl z
        | inr g ↦ inr (omega (arith, g, p.1))
      ] in
      k since deadline (table_pause out w)
        (s, omega (arith, j.1, p.0), omega (arith, j.2, p.1, x.pause_later w))

  table_loop-Verdict :
      (fuel since deadline : ℕ) (w : out.World)
      → Held since deadline w
      → Returns Verdict (table_loop out fuel since deadline w)
  unfolding table_loop table_round
  table_loop-Verdict zero since deadline w h = tt
  table_loop-Verdict (suc fuel) since deadline w h =
      let r = out.metadata w in
      let e = metadata_error out r.0.1 r.1 in
      end_table_round-Verdict (table_loop out fuel)
        (judge_table out e r.0.0 (out.clock r.1) since deadline) r.1
        (λ s d w' g. table_loop-Verdict fuel s d w' g)
        (judge_table-Judged e r.0.0 since deadline w r.1 h (x.metadata_later w) (x.told w))

  -- When WaitForStableTable returns without an error, Metadata has just given EOF, or it has told of no
  -- streaming buffer in the last 60 minutes; and when it returns an error, Metadata has not succeeded
  -- for longer than errorTimeout. At the call, the times told of so far are not in the future, and the
  -- clock does not go back.
  pub wait_for_stable_table-Verdict :
      (fuel : ℕ) (w : out.World)
      → ok w ≤ out.clock w
      → full w ≤ out.clock w
      → Returns Verdict (wait_for_stable_table out fuel w)
  unfolding wait_for_stable_table
  wait_for_stable_table-Verdict fuel w h k =
      table_loop-Verdict fuel 0 (out.clock w + error_timeout out) w (inl refl, omega (arith, h), k)
