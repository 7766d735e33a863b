-- ===== src/Bq/Checks.antt =====
-- checkAlmostAsBig and checkModifiedAfter: what is so of the tables that pass.
use etl_gardener.Base.{
  ℕ, ◌*◌, ◌≤◌, ◌≡◌, ◌≢◌, refl, ◌∙◌, if◌then◌else◌, Bool, true, String, Option, none, some, arith,
  Bool-cases, inl, inr, ltb,
}
use etl_gardener.World.{give, Returns, Returns-follow}
use etl_gardener.Bq.{Outside, Detail, TableMetadata, Pair, AnnotatedTable}
use etl_gardener.Bq.Floats.{below_99_percent, below_99_percent-near}
use etl_gardener.Bq.Caches.{cached_meta, cached_detail, last_modified_time}
use etl_gardener.Bq.Sanity.{
  check_almost_as_big, check_modified_after, compare_details, compare_with, compared, with_tables,
  older_than, err_src_older_than_dest,
}
use etl_gardener.Bq.Kept.{
  Counts, MetaKept, DetailKept, TimeKept, cached_meta-MetaKept, cached_detail-DetailKept,
  last_modified_time-TimeKept,
}

-- By what is cached, the source has at least 98.999 percent of the tests.
abbrev pub Big : AnnotatedTable → AnnotatedTable → Type 0
Big src dest =
    (s : Detail) × (d : Detail) × (src.detail ≡ some s)
    × (dest.detail ≡ some d)
    × (98999 * d.test_count ≤ 100000 * s.test_count)

-- By what is cached, the source is not older; there may be no metadata of the destination.
abbrev pub Later : AnnotatedTable → AnnotatedTable → Type 0
Later src dest =
    (m : TableMetadata) × (src.meta ≡ some m)
    × ((m' : TableMetadata) → dest.meta ≡ some m' → m'.last_modified_time ≤ m.last_modified_time)

module _ (out : Outside) (copies : out.World → ℕ) (x : Counts out copies) where
  -- The tables of a check.
  abbrev pub Same :
      AnnotatedTable
      → AnnotatedTable
      → out.World
      → Option String × AnnotatedTable × AnnotatedTable
      → out.World
      → Type 0
  Same src dest w r w' = (copies w' ≡ copies w) × (r.1.table ≡ src.table) × (r.2.table ≡ dest.table)

  tests_failed :
      (s t : Detail)
      → below_99_percent s.test_count t.test_count ≡ true
      → compare_details out (some s) (some t) ≢ some none
  unfolding compare_details
  tests_failed s t a = rw a (λ e. cc e)

  compare_details-passes :
      (d d' : Option Detail)
      → compare_details out d d' ≡ some none
      → (s : Detail) × (t : Detail) × (d ≡ some s)
        × (d' ≡ some t)
        × (98999 * t.test_count ≤ 100000 * s.test_count)
  unfolding compare_details
  compare_details-passes none d' e = absurd (cc e)
  compare_details-passes (some s) none e = absurd (cc e)
  compare_details-passes (some s) (some t) e =
      let near = below_99_percent-near s.test_count t.test_count in
      elim (Bool-cases (below_99_percent s.test_count t.test_count)) [
        | inl a ↦ absurd (tests_failed s t a e)
        | inr a ↦ (s, t, refl, refl, grind (arith, near.1, a))
      ]

  -- A check of counts, which is passed only by a table that is about as big.
  abbrev pub BigOnly :
      AnnotatedTable
      → AnnotatedTable
      → out.World
      → Option String × AnnotatedTable × AnnotatedTable
      → out.World
      → Type 0
  BigOnly src dest w r w' = Same src dest w r w' × (r.0 ≡ none → Big r.1 r.2)

  with_tables-BigOnly :
      (o : Option (Option String)) (src dest at other : AnnotatedTable) (w w' : out.World)
      → Same src dest w (none, at, other) w'
      → (o ≡ some none → Big at other)
      → Returns (BigOnly src dest w) (with_tables out o at other w')
  with_tables-BigOnly none src dest at other w w' k h = tt
  with_tables-BigOnly (some none) src dest at other w w' k h = (k, λ _. h refl)
  with_tables-BigOnly (some (some e)) src dest at other w w' k h = (k, λ f. absurd (cc f))

  compared-BigOnly :
      (src dest at other : AnnotatedTable) (w w' : out.World) (d : Option Detail) (q : Pair Detail)
      → Same src dest w (none, at, other) w'
      → at.detail ≡ d
      → (q.1 ≡ none → other.detail ≡ q.0)
      → Returns (BigOnly src dest w) (compared out d q at other w')
  compared-BigOnly src dest at other w w' d (d', some e) k p h = (k, λ f. absurd (cc f))
  compared-BigOnly src dest at other w w' d (d', none) k p h =
      with_tables-BigOnly (compare_details out d d') src dest at other w w' k
        (λ f. let g = compare_details-passes d d' f in (g.0, g.1, p ∙ g.2, h refl ∙ g.3, g.4))

  compare_with-BigOnly :
      (ctx : Bool) (src dest at : AnnotatedTable) (w w' : out.World) (p : Pair Detail)
      → DetailKept out copies x src w (p, at) w'
      → Returns (BigOnly src dest w) (compare_with out ctx (p, at) dest w')
  compare_with-BigOnly ctx src dest at w w' (d, some e) k = ((k.0, k.1, refl), λ f. absurd (cc f))
  compare_with-BigOnly ctx src dest at w w' (d, none) k =
      Returns-follow (DetailKept out copies x dest w') (BigOnly src dest w)
        (cached_detail out ctx dest w') (λ s. compared out d s.0 at s.1)
        (cached_detail-DetailKept out copies x ctx dest w')
        (λ s w2 e l.
          compared-BigOnly src dest at s.1 w w2 d s.0 (l.0 ∙ k.0, k.1, l.1) (k.2 refl) l.2)

  pub check_almost_as_big-BigOnly :
      (ctx : Bool) (src dest : AnnotatedTable) (w : out.World)
      → Returns (BigOnly src dest w) (check_almost_as_big out ctx src dest w)
  unfolding check_almost_as_big
  check_almost_as_big-BigOnly ctx src dest w =
      Returns-follow (DetailKept out copies x src w) (BigOnly src dest w)
        (cached_detail out ctx src w) (λ r. compare_with out ctx r dest)
        (cached_detail-DetailKept out copies x ctx src w)
        (λ r w' e k. compare_with-BigOnly ctx src dest r.1 w w' r.0 k)

  -- A check of the times, which keeps the details and is passed only by a table that is not older.
  abbrev pub LaterOnly :
      AnnotatedTable
      → AnnotatedTable
      → out.World
      → Option String × AnnotatedTable × AnnotatedTable
      → out.World
      → Type 0
  LaterOnly src dest w r w' =
      Same src dest w r w'
      × (r.1.detail ≡ src.detail)
      × (r.2.detail ≡ dest.detail)
      × (r.0 ≡ none → Later r.1 r.2)

  older_than-LaterOnly :
      (ctx : Bool) (src dest at : AnnotatedTable) (w w' : out.World) (p : Pair TableMetadata)
      → MetaKept out copies x src w (p, at) w'
      → Returns (LaterOnly src dest w) (older_than out ctx (p, at) dest w')
  older_than-LaterOnly ctx src dest at w w' (m, some e) k =
      ((k.0, k.1, refl), k.2, refl, λ f. absurd (cc f))
  older_than-LaterOnly ctx src dest at w w' (none, none) k = tt
  older_than-LaterOnly ctx src dest at w w' (some m, none) k =
      Returns-follow (TimeKept out copies x dest w') (LaterOnly src dest w)
        (last_modified_time out ctx dest w')
        (λ s.
          give
            (if ltb m.last_modified_time s.0 then some err_src_older_than_dest else none, at, s.1))
        (last_modified_time-TimeKept out copies x ctx dest w')
        (λ s w2 e l. (
          (l.0 ∙ k.0, k.1, l.1),
          k.2,
          l.2,
          λ f.
              let g : s.0 ≤ m.last_modified_time = ground (arith, f) in
              (m, k.3 refl, λ m' h. let b = l.3 m' h in omega (arith, b, g)),
        ))

  pub check_modified_after-LaterOnly :
      (ctx : Bool) (src dest : AnnotatedTable) (w : out.World)
      → Returns (LaterOnly src dest w) (check_modified_after out ctx src dest w)
  unfolding check_modified_after
  check_modified_after-LaterOnly ctx src dest w =
      Returns-follow (MetaKept out copies x src w) (LaterOnly src dest w)
        (cached_meta out ctx src w) (λ r. older_than out ctx r dest)
        (cached_meta-MetaKept out copies x ctx src w)
        (λ r w' e k. older_than-LaterOnly ctx src dest r.1 w w' r.0 k)
