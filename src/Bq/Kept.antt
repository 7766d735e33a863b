-- ===== src/Bq/Kept.antt =====
-- What CachedMeta, CachedDetail and LastModifiedTime keep of a table, and what they give.
use etl_gardener.Base.{
  ℕ, ◌≤◌, ◌≡◌, refl, Bool, true, false, String, Option, none, some, List, [], ◌∷◌, ap, arith,
}
use etl_gardener.World.{give, Returns, Returns-follow}
use etl_gardener.Bq.{
  Outside, Detail, TableMetadata, Table, Pair, AnnotatedTable, Query, query_for, choose_query,
  get_table_detail,
}
use etl_gardener.Bq.Caches.{
  cached_meta, cached_detail, last_modified_time, meta_from, detail_from, guarded, fetch_detail,
  time_of, with_table,
}

-- `copies` counts the copies that are run, which the other calls do not; Metadata gives no metadata with
-- an error.
pub record Counts (out : Outside) (copies : out.World → ℕ) : Type 0 where
  pub metadata_keeps : (t : Table) (w : out.World) → copies (out.metadata t w).1 ≡ copies w
  pub metadata_error :
      (t : Table) (w : out.World) (e : String)
      → (out.metadata t w).0.1 ≡ some e
      → (out.metadata t w).0.0 ≡ none
  pub query_keeps : (q : Query) (w : out.World) → copies (out.query_detail q w).1 ≡ copies w

module _ (out : Outside) (copies : out.World → ℕ) (x : Counts out copies) where
  -- What CachedMeta keeps, and what it gives without an error.
  abbrev pub MetaKept :
      AnnotatedTable → out.World → Pair TableMetadata × AnnotatedTable → out.World → Type 0
  MetaKept at w r w' =
      (copies w' ≡ copies w)
      × (r.1.table ≡ at.table)
      × (r.1.detail ≡ at.detail)
      × (r.0.1 ≡ none → r.1.meta ≡ r.0.0)
      × ((e : String) → r.0.1 ≡ some e → r.1.meta ≡ none)

  meta_from-MetaKept :
      (m : Option TableMetadata) (e : Option String) (ctx : Bool) (at : AnnotatedTable)
      (w : out.World)
      → at.meta ≡ m
      → at.err ≡ e
      → Returns (MetaKept at w) (meta_from out m e ctx at w)
  meta_from-MetaKept (some m) e ctx at w p q = (refl, refl, refl, λ _. p, λ e f. absurd (cc f))
  meta_from-MetaKept none (some e) ctx at w p q = (refl, refl, refl, λ f. absurd (cc f), λ _ _. p)
  meta_from-MetaKept none none false at w p q = (refl, refl, refl, λ f. absurd (cc f), λ _ _. p)
  meta_from-MetaKept none none true at w p q =
      (x.metadata_keeps at.table w, refl, refl, λ _. refl, λ e f. x.metadata_error at.table w e f)

  pub cached_meta-MetaKept :
      (ctx : Bool) (at : AnnotatedTable) (w : out.World)
      → Returns (MetaKept at w) (cached_meta out ctx at w)
  unfolding cached_meta
  cached_meta-MetaKept ctx at w = meta_from-MetaKept at.meta at.err ctx at w refl refl

  abbrev pub DetailKept :
      AnnotatedTable → out.World → Pair Detail × AnnotatedTable → out.World → Type 0
  DetailKept at w r w' =
      (copies w' ≡ copies w) × (r.1.table ≡ at.table) × (r.0.1 ≡ none → r.1.detail ≡ r.0.0)

  query_for-keeps :
      (t : Table) (parts : List String) (q : Pair String) (w : out.World)
      → Returns (λ _ w'. copies w' ≡ copies w) (query_for out t parts q w)
  query_for-keeps t [] q w = tt
  query_for-keeps t (name ∷ rest) (none, err) w = refl
  query_for-keeps t (name ∷ rest) (some clause, err) w =
      x.query_keeps (choose_query t.dataset_id name clause) w

  get_table_detail-keeps :
      (t : Table) (w : out.World)
      → Returns (λ _ w'. copies w' ≡ copies w) (get_table_detail out t w)
  unfolding get_table_detail
  get_table_detail-keeps t w = query_for-keeps t (out.split_dollar t.table_id) _ w

  fetch_detail-DetailKept :
      (at : AnnotatedTable) (w : out.World) → Returns (DetailKept at w) (fetch_detail out at w)
  fetch_detail-DetailKept at w =
      Returns-follow (λ _ w'. copies w' ≡ copies w) (DetailKept at w)
        (get_table_detail out at.table w) (λ r. give (r, record at { detail = r.0; err = r.1 }))
        (get_table_detail-keeps at.table w) (λ r w' e k. (k, refl, λ _. refl))

  guarded-DetailKept :
      (e : Option String) (ds ctx : Bool) (at : AnnotatedTable) (w : out.World)
      → Returns (DetailKept at w) (guarded out e ds ctx at (fetch_detail out at) w)
  guarded-DetailKept (some e) ds ctx at w = (refl, refl, λ f. absurd (cc f))
  guarded-DetailKept none false ctx at w = (refl, refl, λ f. absurd (cc f))
  guarded-DetailKept none true false at w = (refl, refl, λ f. absurd (cc f))
  guarded-DetailKept none true true at w = fetch_detail-DetailKept at w

  detail_from-DetailKept :
      (d : Option Detail) (ctx : Bool) (at : AnnotatedTable) (w : out.World)
      → at.detail ≡ d
      → Returns (DetailKept at w) (detail_from out d ctx at w)
  detail_from-DetailKept (some d) ctx at w p = (refl, refl, λ _. p)
  detail_from-DetailKept none ctx at w p = guarded-DetailKept at.err at.has_dataset ctx at w

  pub cached_detail-DetailKept :
      (ctx : Bool) (at : AnnotatedTable) (w : out.World)
      → Returns (DetailKept at w) (cached_detail out ctx at w)
  unfolding cached_detail
  cached_detail-DetailKept ctx at w = detail_from-DetailKept at.detail ctx at w refl

  -- LastModifiedTime gives at least the time of the metadata that the table has after it.
  abbrev pub TimeKept : AnnotatedTable → out.World → ℕ × AnnotatedTable → out.World → Type 0
  TimeKept at w r w' =
      (copies w' ≡ copies w)
      × (r.1.table ≡ at.table)
      × (r.1.detail ≡ at.detail)
      × ((m : TableMetadata) → r.1.meta ≡ some m → m.last_modified_time ≤ r.0)

  time_of-TimeKept :
      (at at' : AnnotatedTable) (w w' : out.World) (p : Pair TableMetadata)
      → MetaKept at w (p, at') w'
      → Returns (TimeKept at w) (with_table out (time_of out p) at' w')
  time_of-TimeKept at at' w w' (m, some e) k = (k.0, k.1, k.2, λ m' f. absurd (cc (f, k.4 e refl)))
  time_of-TimeKept at at' w w' (none, none) k = tt
  time_of-TimeKept at at' w w' (some m, none) k = (
    k.0,
    k.1,
    k.2,
    λ m' f.
        let g : m ≡ m' = cc (f, k.3 refl) in
        let h = ap (λ (v : TableMetadata). v.last_modified_time) g in omega (arith, h),
  )

  pub last_modified_time-TimeKept :
      (ctx : Bool) (at : AnnotatedTable) (w : out.World)
      → Returns (TimeKept at w) (last_modified_time out ctx at w)
  unfolding last_modified_time
  last_modified_time-TimeKept ctx at w =
      Returns-follow (MetaKept at w) (TimeKept at w) (cached_meta out ctx at w)
        (λ r. with_table out (time_of out r.0) r.1) (cached_meta-MetaKept ctx at w)
        (λ r w' e k. time_of-TimeKept at r.1 w w' r.0 k)
