-- ===== src/Pagination/Forward.antt =====
-- Paging forwards, by `first` and `after`, through a connection of pagination.ts.
use stellar_analytics_dashbo.Prelude.{
  ℕ, zero, suc, ◌+◌, ◌≤◌, ◌<◌, ◌≡◌, inl, inr, refl, ap, sym, subst, ◌∙◌, String, Bool, true, false,
  Option, none, some, List, [], ◌∷◌, ◌++◌, map, ltb, length, length-append, take, drop, arith,
  Bool-cases, if◌then◌else◌,
}
use mathlib.Core.Option
use mathlib.Core.List.{append-nil, append_assoc}
use stellar_analytics_dashbo.Prelude.Text.{str_eq, str_eq_refl}
use stellar_analytics_dashbo.Pagination.{
  PaginationArgs, Edge, Result, user_input_error, connection, last_of, edge_of, index_of_cursor,
  drop_until, keep_until, limit_to, end_position, page_of, create_connection,
}
use stellar_analytics_dashbo.Pagination.Search.{
  Distinct, find_index-middle, drop-middle, take-all, take-drop, has_last, last_of-append,
  append-one, find_index-map, map-append, map-take, map-drop, length-take, length-drop,
}

abbrev pub page_args : ℕ → Option String → PaginationArgs
page_args k after = record { first = some k; after = after; last = none; before = none }

-- Where a client stands that has read `read`: at the start, or behind its last node.
data Stands {T : Type 0} (cursor : T → String) : List T → Option String → Type 0 where
  start : Stands cursor [] none
  behind : (i : List T) (x : T) → Stands cursor (i ++ x ∷ []) (some (cursor x))

limit-first :
    {T : Type 0} (k : ℕ) (edges : List (Edge T))
    → 0 < k
    → limit_to (some k) none edges ≡ take k edges
unfolding limit_to
limit-first k edges pos = ground (arith, take-all k edges)

module _ {T : Type 0} (to_cursor from_cursor : String → String) (same : T → T → Bool)
    (get_cursor : T → String) where
  -- The nodes of a page, and of those that `more` gives behind its end cursor if there is a next one.
  abbrev read_page : Result T → (Option String → Option (List T)) → Option (List T)
  read_page (user_input_error message) more = none
  read_page (connection c) more =
      if c.page_info.has_next_page
      then Option.map (λ rest. map Edge.node c.edges ++ rest) (more c.page_info.end_cursor)
      else some (map Edge.node c.edges)

  -- A client that asks for page after page while there is a next one, on fuel.
  unfoldable pub pages : ℕ → List T → ℕ → Option String → Option (List T)
  pages zero nodes k after = none
  pages (suc fuel) nodes k after =
      read_page (create_connection to_cursor from_cursor same get_cursor nodes (page_args k after))
        (pages fuel nodes k)

  pages-suc :
      (fuel k : ℕ) (nodes : List T) (after : Option String)
      → pages (suc fuel) nodes k after
        ≡ read_page
            (create_connection to_cursor from_cursor same get_cursor nodes (page_args k after))
            (pages fuel nodes k)
  unfolding pages
  pages-suc fuel k nodes after = refl

  abbrev pub cursor : T → String
  cursor x = to_cursor (get_cursor x)

  abbrev pub same_cursor : T → T → Bool
  same_cursor x y = str_eq (from_cursor (cursor x)) (from_cursor (cursor y))

  abbrev edge : T → Edge T
  edge = edge_of to_cursor from_cursor same get_cursor

  map-node : (xs : List T) → map Edge.node (map edge xs) ≡ xs
  unfolding edge_of
  map-node [] = refl
  map-node (x ∷ xs) = ap (λ ys. x ∷ ys) (map-node xs)

  module _ (given : (x : T) → str_eq (cursor x) "" ≡ false) where
    index-middle :
        (i : List T) (x : T) (ys : List T)
        → Distinct same_cursor (i ++ x ∷ ys)
        → index_of_cursor to_cursor from_cursor same get_cursor (cursor x) (map edge (i ++ x ∷ ys))
          ≡ some (length i)
    unfolding index_of_cursor edge_of
    index-middle i x ys d =
        find_index-map (λ (e : Edge T). str_eq (from_cursor e.cursor) (from_cursor (cursor x))) edge
          (i ++ x ∷ ys)
        ∙ find_index-middle same_cursor i x ys (str_eq_refl (from_cursor (cursor x))) d

    drop_until-Stands :
        (read left : List T) (after : Option String)
        → Stands cursor read after
        → Distinct same_cursor (read ++ left)
        → drop_until to_cursor from_cursor same get_cursor after (map edge (read ++ left))
          ≡ map edge left
    unfolding drop_until
    drop_until-Stands read left none start d = refl
    drop_until-Stands read left (some c) (behind i x) d =
        let d' = subst (Distinct same_cursor) (append-one i x left) d in
        rw (append-one i x left) (
          rw (given x) (
            rw (index-middle i x left d') (
              map-drop edge (length i + 1) (i ++ x ∷ left) ∙ ap (map edge) (drop-middle i x left))))

    -- The page behind what was read.
    page-Stands :
        (k : ℕ) (read left : List T) (after : Option String)
        → 0 < k
        → Stands cursor read after
        → Distinct same_cursor (read ++ left)
        → create_connection to_cursor from_cursor same get_cursor (read ++ left) (page_args k after)
          ≡ connection (
              page_of to_cursor from_cursor same get_cursor
                (read ++ left)
                (page_args k after)
                (map edge (take k left)))
    unfolding create_connection keep_until
    page-Stands k read left after pos s d =
        rw (drop_until-Stands read left after s d)
          (rw (limit-first k (map edge left) pos) (rw (map-take edge k left) (ground arith)))

    -- Where cursors are not empty and differ from node to node, also as they are read back: the page of
    -- `k` nodes, `k` not 0, behind the last node is empty, but says that there is a next page, and names
    -- no cursor to ask for it.
    pub past_end :
        (k : ℕ) (i : List T) (x : T)
        → 0 < k
        → Distinct same_cursor (i ++ x ∷ [])
        → create_connection to_cursor from_cursor same get_cursor
            (i ++ x ∷ [])
            (page_args k (some (cursor x)))
          ≡ connection (record {
            edges = [];
            page_info = record {
              has_next_page = true;
              has_previous_page = false;
              start_cursor = none;
              end_cursor = none;
            };
            total_count = suc (length i);
          })
    unfolding page_of end_position
    past_end k i x pos d =
        let nodes = i ++ x ∷ [] in
        let nil = append-nil nodes in
        let e =
          subst
            (λ ns.
              create_connection to_cursor from_cursor same get_cursor ns
                (page_args k (some (cursor x)))
              ≡ connection (
                  page_of to_cursor from_cursor same get_cursor ns (page_args k (some (cursor x)))
                    (map edge (take k []))))
            nil
            (page-Stands k nodes [] (some (cursor x)) pos (behind i x)
              (subst (Distinct same_cursor) (sym nil) d)) in
        let none_taken = take-all {A = T} k [] (omega arith) in
        rw e (rw none_taken (rw (length-append i (x ∷ [])) (ground arith)))

    abbrev Info : ℕ → Option String → List T → List T → List T → T → Type 0
    Info k after nodes page rest x =
        let c =
          page_of to_cursor from_cursor same get_cursor nodes (page_args k after) (map edge page) in
        (c.page_info.has_next_page ≡ ltb 0 (length rest))
        × (c.page_info.end_cursor ≡ some (cursor x))

    -- A page that is not empty, with what it ends with and what is behind it.
    record Splits (k : ℕ) (read left : List T) : Type 0 where
      j : List T
      x : T
      page : take k left ≡ j ++ x ∷ []
      whole : read ++ left ≡ (read ++ j) ++ x ∷ drop k left

    splits : (k : ℕ) (read left : List T) → 0 < k → 0 < length left → Splits k read left
    splits k read left pos some_left = elim (has_last (take k left)) [
      | inl e ↦ absurd (ground (arith, length-take k left))
      | inr (j, x, e) ↦ record {
        j = j;
        x = x;
        page = e;
        whole =
            ap (λ xs. read ++ xs)
              (sym (take-drop k left) ∙ ap (λ p. p ++ drop k left) e ∙ append-one j x (drop k left))
            ∙ sym (append_assoc read j (x ∷ drop k left));
      }
    ]

    module _ (reflexive : (x : T) → same x x ≡ true) where
      -- A page that ends with `x`, with `rest` behind it.
      info-middle :
          (k : ℕ) (read j : List T) (x : T) (rest : List T) (after : Option String)
          → 0 < k
          → Distinct same ((read ++ j) ++ x ∷ rest)
          → let c =
              page_of to_cursor from_cursor same get_cursor
                ((read ++ j) ++ x ∷ rest)
                (page_args k after)
                (map edge (j ++ x ∷ [])) in
            (c.page_info.has_next_page ≡ ltb 0 (length rest))
            × (c.page_info.end_cursor ≡ some (cursor x))
      unfolding page_of end_position edge_of
      info-middle k read j x rest after pos d =
          let l : last_of (map edge (j ++ x ∷ [])) ≡ some (edge x) =
            ap last_of (map-append edge j (x ∷ [])) ∙ last_of-append (map edge j) (edge x) in
          rw l (
            rw (find_index-middle same (read ++ j) x rest (reflexive x) d)
              (rw (length-append (read ++ j) (x ∷ rest)) (ground arith, refl)))

      page-Info :
          (k : ℕ) (read left : List T) (after : Option String) (s : Splits k read left)
          → 0 < k
          → Distinct same (read ++ left)
          → Info k after (read ++ left) (take k left) (drop k left) s.x
      page-Info k read left after s pos d =
          subst (λ nodes. Info k after nodes (take k left) (drop k left) s.x) (sym s.whole)
            (subst
              (λ page. Info k after ((read ++ s.j) ++ s.x ∷ drop k left) page (drop k left) s.x)
              (sym s.page)
              (info-middle k read s.j s.x (drop k left) after pos
                (subst (Distinct same) s.whole d)))

      pages-Stands :
          (fuel k : ℕ) (read left : List T) (after : Option String)
          → 0 < k
          → 0 < length left
          → length left ≤ fuel
          → Stands cursor read after
          → Distinct same_cursor (read ++ left)
          → Distinct same (read ++ left)
          → pages fuel (read ++ left) k after ≡ some left
      unfolding pages page_of
      pages-Stands zero k read left after pos more enough s dc d = absurd (omega arith)
      pages-Stands (suc fuel) k read left after pos more enough s dc d =
          let sp = splits k read left pos more in
          let (next, end) = page-Info k read left after sp pos d in
          rw (pages-suc fuel k (read ++ left) after, page-Stands k read left after pos s dc)
            (rw next (
              rw end (
                rw (map-node (take k left)) (elim (Bool-cases (ltb 0 (length (drop k left)))) [
                  | inr e ↦ rw e (ap some (take-all k left (ground (arith, length-drop k left))))
                  | inl e ↦ rw e (
                      let m : read ++ left ≡ ((read ++ sp.j) ++ sp.x ∷ []) ++ drop k left =
                        sp.whole ∙ sym (append-one (read ++ sp.j) sp.x (drop k left)) in
                      let ih =
                        pages-Stands fuel k ((read ++ sp.j) ++ sp.x ∷ []) (drop k left)
                          (some (cursor sp.x)) pos (ground arith)
                          (omega (arith, length-take k left)) (behind (read ++ sp.j) sp.x)
                          (subst (Distinct same_cursor) m dc) (subst (Distinct same) m d) in
                      ap (Option.map (λ rest. take k left ++ rest))
                        (ap (λ nodes. pages fuel nodes k (some (cursor sp.x))) m ∙ ih)
                      ∙ ap some (take-drop k left))
                ]))))

      -- Where cursors are not empty and differ from node to node, also as they are read back, and no node
      -- is there twice (and `===` holds of a node and itself): a client that asks for `k` nodes at a time, `k` not 0, each time behind the end
      -- cursor of the page before, until there is no next page, reads every node once and in order.
      pub pages-all :
          (k : ℕ) (nodes : List T)
          → 0 < k
          → Distinct same_cursor nodes
          → Distinct same nodes
          → pages (suc (length nodes)) nodes k none ≡ some nodes
      unfolding pages create_connection page_of limit_to drop_until keep_until end_position
      pages-all k [] pos dc d = ground arith
      pages-all k (x ∷ xs) pos dc d =
          pages-Stands (suc (suc (length xs))) k [] (x ∷ xs) none pos (omega arith) (omega arith)
            start dc d
