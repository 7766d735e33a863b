-- ===== src/Bq/Copies.antt =====
-- SanityCheckAndCopy: what it has checked before a copy.
use etl_gardener.Base.{ap, arith, eq_iff, ℕ, ◌≡◌, ◌≢◌, refl, ◌∙◌, Bool, String, Option, none, some}
use etl_gardener.World.{◌>>=◌, give, Returns, Returns-follow, Returns-any, Returns-mono}
use etl_gardener.Bq.{Outside, AnnotatedTable, TableNameParts, get_table_parts}
use etl_gardener.Bq.Caches.{last_modified_time}
use etl_gardener.Bq.Sanity.{
  check_almost_as_big, check_modified_after, sanity_check_and_copy, end_checks, end_counts,
  end_parts, mismatch, log_times, copy_and_wait,
}
use etl_gardener.Bq.Kept.{Counts, TimeKept, last_modified_time-TimeKept}
use etl_gardener.Bq.Checks.{
  Big, Later, BigOnly, LaterOnly, check_almost_as_big-BigOnly, check_modified_after-LaterOnly,
}

module _ (out : Outside) (copies : out.World → ℕ) (x : Counts out copies) where
  log_times-keeps :
      (ctx : Bool) (src dest : AnnotatedTable) (w : out.World)
      → Returns (λ _ w'. copies w' ≡ copies w) (log_times out ctx src dest w)
  unfolding log_times
  log_times-keeps ctx src dest w =
      Returns-follow (TimeKept out copies x src w) (λ _ w'. copies w' ≡ copies w)
        (last_modified_time out ctx src w)
        (λ s. last_modified_time out ctx dest >>= λ d. give (s.1, d.1))
        (last_modified_time-TimeKept out copies x ctx src w)
        (λ s w' e k.
          Returns-follow (TimeKept out copies x dest w') (λ _ w2. copies w2 ≡ copies w)
            (last_modified_time out ctx dest w') (λ d. give (s.1, d.1))
            (last_modified_time-TimeKept out copies x ctx dest w') (λ d w2 f l. l.0 ∙ k.0))

  -- A copy is run only for tables that have passed.
  abbrev CopiesOnly :
      out.World → Option String × AnnotatedTable × AnnotatedTable → out.World → Type 0
  CopiesOnly w r w' = copies w' ≢ copies w → Big r.1 r.2 × Later r.1 r.2

  end_checks-CopiesOnly :
      (fuel : ℕ) (ctx : Bool) (r : Option String × AnnotatedTable × AnnotatedTable)
      (w w' : out.World)
      → copies w' ≡ copies w
      → (r.0 ≡ none → Big r.1 r.2 × Later r.1 r.2)
      → Returns (CopiesOnly w) (end_checks out fuel ctx r w')
  end_checks-CopiesOnly fuel ctx (some e, src, dest) w w' k h =
      Returns-follow (λ _ w2. copies w2 ≡ copies w') (CopiesOnly w) (log_times out ctx src dest w')
        (λ t. give (some e, t.0, t.1)) (log_times-keeps ctx src dest w')
        (λ t w2 f l n. absurd (n (l ∙ k)))
  end_checks-CopiesOnly fuel ctx (none, src, dest) w w' k h =
      Returns-follow (λ _ _. Unit) (CopiesOnly w) (copy_and_wait out fuel src.table dest.table w')
        (λ e. give (e, src, dest)) (Returns-any _) (λ e w2 f u n. h refl)

  end_counts-CopiesOnly :
      (fuel : ℕ) (ctx : Bool) (src dest : AnnotatedTable)
      (r : Option String × AnnotatedTable × AnnotatedTable) (w w' : out.World)
      → BigOnly out copies x src dest w r w'
      → Returns (CopiesOnly w) (end_counts out fuel ctx r w')
  end_counts-CopiesOnly fuel ctx src dest (some e, at, other) w w' k = λ n. absurd (n k.0.0)
  end_counts-CopiesOnly fuel ctx src dest (none, at, other) w w' k =
      Returns-follow (LaterOnly out copies x at other w') (CopiesOnly w)
        (check_modified_after out ctx at other w') (λ s. end_checks out fuel ctx s)
        (check_modified_after-LaterOnly out copies x ctx at other w')
        (λ s w2 e l.
          end_checks-CopiesOnly fuel ctx s w w2 (l.0.0 ∙ k.0.0)
            (λ f. let b = k.1 refl in ((b.0, b.1, l.1 ∙ b.2, l.2 ∙ b.3, b.4), l.3 f)))

  end_parts-CopiesOnly :
      (fuel : ℕ) (ctx : Bool) (m : Option String) (src dest : AnnotatedTable) (w : out.World)
      → Returns
          (λ r w'. copies w' ≢ copies w → (m ≡ none) × Big r.1 r.2 × Later r.1 r.2)
          (end_parts out fuel ctx m src dest w)
  end_parts-CopiesOnly fuel ctx (some e) src dest w = λ n. absurd (n refl)
  end_parts-CopiesOnly fuel ctx none src dest w =
      Returns-follow (BigOnly out copies x src dest w)
        (λ r w'. copies w' ≢ copies w → (none ≡ none) × Big r.1 r.2 × Later r.1 r.2)
        (check_almost_as_big out ctx src dest w) (λ r. end_counts out fuel ctx r)
        (check_almost_as_big-BigOnly out copies x ctx src dest w)
        (λ r w' e k.
          Returns-mono (CopiesOnly w)
            (λ r w'. copies w' ≢ copies w → (none ≡ none) × Big r.1 r.2 × Later r.1 r.2) _
            (end_counts-CopiesOnly fuel ctx src dest r w w' k)
            (λ s w2 g n. let h = g n in (refl, h.0, h.1)))

  -- Both names are split without an error, and into the same dates.
  abbrev pub SameDates : String → String → Type 0
  SameDates src dest =
      (p : TableNameParts) × (q : TableNameParts) × (get_table_parts out src ≡ (p, none))
      × (get_table_parts out dest ≡ (q, none))
      × (p.yyyymmdd ≡ q.yyyymmdd)

  mismatch-none :
      (a b : TableNameParts × Option String)
      → mismatch out a b ≡ none
      → (a.1 ≡ none) × (b.1 ≡ none) × (a.0.yyyymmdd ≡ b.0.yyyymmdd)
  unfolding mismatch
  mismatch-none (p, some e) b h = absurd (cc h)
  mismatch-none (p, none) (q, some e) h = absurd (cc h)
  mismatch-none (p, none) (q, none) h =
      (refl, refl, ground (arith, h, eq_iff q.yyyymmdd p.yyyymmdd))

  mismatch-SameDates :
      (src dest : String)
      → mismatch out (get_table_parts out src) (get_table_parts out dest) ≡ none
      → SameDates src dest
  mismatch-SameDates src dest h =
      let a = get_table_parts out src in
      let b = get_table_parts out dest in
      let k = mismatch-none a b h in (a.0, b.0, ap (λ e. (a.0, e)) k.0, ap (λ e. (b.0, e)) k.1, k.2)

  -- SanityCheckAndCopy runs a copy only if the names of both tables have a date, the two dates are the
  -- same, the source has at least 98.999 percent of the tests of the destination, and the source is not
  -- older than the destination, by the details and the metadata that the tables have at the end.
  -- `copies` counts the copies, and Metadata gives nil with an error.
  pub sanity_check_and_copy-Passed :
      (fuel : ℕ) (ctx : Bool) (src dest : AnnotatedTable) (w : out.World)
      → Returns
          (λ r w'.
            copies w' ≢ copies w
            → SameDates src.table.table_id dest.table.table_id × Big r.1 r.2 × Later r.1 r.2)
          (sanity_check_and_copy out fuel ctx src dest w)
  unfolding sanity_check_and_copy
  sanity_check_and_copy-Passed fuel ctx src dest w =
      let m =
        mismatch out (get_table_parts out src.table.table_id)
          (get_table_parts out dest.table.table_id) in
      let same = mismatch-SameDates src.table.table_id dest.table.table_id in
      Returns-mono (λ r w'. copies w' ≢ copies w → (m ≡ none) × Big r.1 r.2 × Later r.1 r.2)
        (λ r w'.
          copies w' ≢ copies w
          → SameDates src.table.table_id dest.table.table_id × Big r.1 r.2 × Later r.1 r.2)
        _ (end_parts-CopiesOnly fuel ctx m src dest w)
        (λ r w' h n. let g = h n in (same g.0, g.1, g.2))
