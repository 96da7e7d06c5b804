-- ===== src/Pagination/Backward.antt =====
-- Paging backwards, by `last` and `before`, through a connection of pagination.ts.
use stellar_analytics_dashbo.Prelude.{
  ℕ, ◌-◌, ◌≤◌, ◌<◌, ◌≡◌, inl, inr, refl, ap, ◌∙◌, String, Bool, true, false, none, some, List, ◌∷◌,
  ◌++◌, map, ltb, length, length-append, drop, arith, Bool-cases,
}
use stellar_analytics_dashbo.Prelude.Text.{str_eq, str_eq_refl}
use stellar_analytics_dashbo.Pagination.{
  PaginationArgs, Edge, Connection, connection, edge_of, index_of_cursor, drop_until, keep_until,
  limit_to, page_of, create_connection,
}
use stellar_analytics_dashbo.Pagination.Search.{
  Distinct, find_index-middle, take-length, find_index-map, length-map, map-take, map-drop,
  length-drop,
}
use stellar_analytics_dashbo.Pagination.Forward.{cursor, same_cursor}

abbrev pub args_before : ℕ → String → PaginationArgs
args_before k before = record { first = none; after = none; last = some k; before = some before }

limit-last :
    {T : Type 0} (k : ℕ) (edges : List (Edge T))
    → 0 < k
    → limit_to none (some k) edges ≡ drop (length edges - k) edges
unfolding limit_to
limit-last k edges pos = elim (Bool-cases (ltb k (length edges))) [
  | inl e ↦ ground arith
  | inr e ↦ let z : length edges - k ≡ 0 = ground arith in rw z (ground arith)
]

module _ {T : Type 0} (to_cursor from_cursor : String → String) (same : T → T → Bool)
    (get_cursor : T → String) where
  abbrev edge : T → Edge T
  edge = edge_of to_cursor from_cursor same get_cursor

  abbrev cursor_of : T → String
  cursor_of = cursor to_cursor from_cursor same get_cursor

  module _ (given : (x : T) → str_eq (cursor_of x) "" ≡ false) where
    keep_until-middle :
        (i : List T) (x : T) (ys : List T)
        → Distinct (same_cursor to_cursor from_cursor same get_cursor) (i ++ x ∷ ys)
        → keep_until to_cursor from_cursor same get_cursor
            (some (cursor_of x))
            (map edge (i ++ x ∷ ys))
          ≡ map edge i
    unfolding keep_until index_of_cursor edge_of
    keep_until-middle i x ys d = rw (given x) (
        rw
          (find_index-map
              (λ (e : Edge T). str_eq (from_cursor e.cursor) (from_cursor (cursor_of x))) edge
              (i ++ x ∷ ys)
            ∙ find_index-middle (same_cursor to_cursor from_cursor same get_cursor) i x ys
                (str_eq_refl (from_cursor (cursor_of x))) d)
          (map-take edge (length i) (i ++ x ∷ ys) ∙ ap (map edge) (take-length i (x ∷ ys))))

    -- Where cursors are not empty and differ from node to node, also as they are read back: the page of
    -- the last `k` nodes before any node, `k` not 0, has the last `k` of those before it, or all of them,
    -- and says that there is a previous page, also where it begins with the first node.
    pub before-page :
        (k : ℕ) (i : List T) (x : T) (ys : List T)
        → 0 < k
        → Distinct (same_cursor to_cursor from_cursor same get_cursor) (i ++ x ∷ ys)
        → (c : Connection T) × (create_connection to_cursor from_cursor same get_cursor
              (i ++ x ∷ ys)
              (args_before k (cursor_of x))
            ≡ connection c)
          × (c.edges ≡ map edge (drop (length i - k) i))
          × (c.page_info.has_previous_page ≡ true)
    unfolding create_connection drop_until page_of
    before-page k i x ys pos d =
        let edges : limit_to none (some k) (map edge i) ≡ map edge (drop (length i - k) i) =
          limit-last k (map edge i) pos
          ∙ ap (λ n. drop (n - k) (map edge i)) (length-map edge i)
          ∙ map-drop edge (length i - k) i in
        let short : length (map edge (drop (length i - k) i)) ≤ length i =
          omega (arith, length-map edge (drop (length i - k) i), length-drop (length i - k) i) in
        let args = args_before k (cursor_of x) in
        (
          page_of to_cursor from_cursor same get_cursor (i ++ x ∷ ys) args
              (map edge (drop (length i - k) i)),
          rw (keep_until-middle i x ys d) (rw edges refl),
          refl,
          ground (arith, length-append i (x ∷ ys)),
        )
