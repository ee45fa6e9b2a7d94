-- ===== src/Store/Subscriptions/Owner.antt =====
-- Who holds an endpoint, after a registration and after a removal.
use tracker.Base.{
  ◌≡◌, ◌≢◌, refl, ◌&&◌, String, Option, none, some, List, [], ◌∷◌, if◌then◌else◌, ◌==◌, string_eq,
  arith,
}
use tracker.Clock.{Time}
use tracker.Store.Subscriptions.{Row, is_endpoint, upsert, delete_rows}

-- The viewer of the row of an endpoint.
unfoldable pub owner : String → String → List Row → Option String
owner provider token [] = none
owner provider token (r ∷ rest) =
    if is_endpoint provider token r then some r.viewer_id else owner provider token rest

module _ (v p t : String) where
  pub upsert-owner :
      (new_id : String) (now : Time) (q u : String) (rows : List Row)
      → owner q u (upsert new_id now v p t rows).0
        ≡ (if p == q && t == u then some v else owner q u rows)
  unfolding upsert owner
  upsert-owner new_id now q u [] = ground arith
  upsert-owner new_id now q u (r ∷ rest) = ground (
    arith,
    upsert-owner new_id now q u rest,
    string_eq.beq_iff r.provider p,
    string_eq.beq_iff r.token t,
    string_eq.beq_iff r.provider q,
    string_eq.beq_iff r.token u,
    string_eq.beq_iff p q,
    string_eq.beq_iff t u,
  )

  pub delete_rows-owner :
      (q u w : String) (rows : List Row)
      → owner q u rows ≡ some w
      → w ≢ v
      → owner q u (delete_rows v p t rows).0 ≡ some w
  unfolding delete_rows owner
  delete_rows-owner q u w [] h other = h
  delete_rows-owner q u w (r ∷ rest) h other =
      ground (arith, delete_rows-owner q u w rest, string_eq.beq_iff r.viewer_id v)

  pub delete_rows-elsewhere :
      (q u : String) (rows : List Row)
      → t ≢ u
      → owner q u (delete_rows v p t rows).0 ≡ owner q u rows
  unfolding delete_rows owner
  delete_rows-elsewhere q u [] other = refl
  delete_rows-elsewhere q u (r ∷ rest) other = ground (
    arith,
    delete_rows-elsewhere q u rest other,
    string_eq.beq_iff r.token t,
    string_eq.beq_iff r.token u,
  )
