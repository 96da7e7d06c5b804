-- ===== src/Pagination.antt =====
-- Connections of packages/api/src/utils/pagination.ts. `to_cursor` and `from_cursor` are the conversions of Node's
-- Buffer that the file names so, `same` is `===` on nodes, which `indexOf` applies. Sizes are natural numbers.
pub mod Search
pub mod Forward
pub mod Backward
mod Examples
use stellar_analytics_dashbo.Prelude.{
  ℕ, zero, suc, ◌+◌, ◌-◌, String, Bool, true, false, not, ◌&&◌, Option, none, some, List, [], ◌∷◌,
  map, ltb, ◌==◌, if◌then◌else◌, length, take, drop, or_default,
}
use mathlib.Core.Option
use stellar_analytics_dashbo.Prelude.Text.{str_eq}

pub record PaginationArgs : Type 0 where
  pub first : Option ℕ
  pub after : Option String
  pub last : Option ℕ
  pub before : Option String

pub record Edge (T : Type 0) : Type 0 where
  pub node : T
  pub cursor : String

pub record PageInfo : Type 0 where
  pub has_next_page : Bool
  pub has_previous_page : Bool
  pub start_cursor : Option String
  pub end_cursor : Option String

pub record Connection (T : Type 0) : Type 0 where
  pub edges : List (Edge T)
  pub page_info : PageInfo
  pub total_count : ℕ

pub data Result (T : Type 0) : Type 0 where
  user_input_error : String → Result T
  connection : Connection T → Result T

-- A number that is given and not 0, a text that is given and not empty.
abbrev pub is_size : Option ℕ → Bool
is_size none = false
is_size (some n) = not (n == 0)

abbrev pub is_cursor : Option String → Bool
is_cursor none = false
is_cursor (some s) = not (str_eq s "")

module _ {A : Type 0} where
  -- `findIndex`, with none for -1.
  abbrev pub find_index : (A → Bool) → List A → Option ℕ
  find_index p [] = none
  find_index p (x ∷ xs) = if p x then some 0 else Option.map suc (find_index p xs)

  abbrev pub first_of : List A → Option A
  first_of [] = none
  first_of (x ∷ xs) = some x

  abbrev pub last_of : List A → Option A
  last_of [] = none
  last_of (x ∷ xs) = some (or_default (last_of xs) x)

  abbrev pub slice_after : Option ℕ → List A → List A
  slice_after none xs = xs
  slice_after (some i) xs = drop (i + 1) xs

  abbrev pub slice_before : Option ℕ → List A → List A
  slice_before none xs = xs
  slice_before (some i) xs = take i xs

-- `limit && edges.length > limit`, with `limit = first || last`.
unfoldable pub limit_to : {T : Type 0} → Option ℕ → Option ℕ → List (Edge T) → List (Edge T)
limit_to first last edges =
    let limit = or_default (if is_size first then first else last) 0 in
    if not (limit == 0) && ltb limit (length edges)
    then (if is_size last
        then drop (length edges - or_default last 0) edges
        else take (or_default first 0) edges)
    else edges

module _ {T : Type 0} (to_cursor from_cursor : String → String) (same : T → T → Bool)
    (get_cursor : T → String) where
  unfoldable pub edge_of : T → Edge T
  edge_of node = record { node = node; cursor = to_cursor (get_cursor node) }

  unfoldable pub index_of_cursor : String → List (Edge T) → Option ℕ
  index_of_cursor cursor edges =
      find_index (λ edge. str_eq (from_cursor edge.cursor) (from_cursor cursor)) edges

  unfoldable pub drop_until : Option String → List (Edge T) → List (Edge T)
  drop_until after edges =
      if is_cursor after
      then slice_after (index_of_cursor (or_default after "") edges) edges
      else edges

  unfoldable pub keep_until : Option String → List (Edge T) → List (Edge T)
  keep_until before edges =
      if is_cursor before
      then slice_before (index_of_cursor (or_default before "") edges) edges
      else edges

  -- `data.indexOf(edges[edges.length - 1].node) + 1`, and 0 without edges.
  unfoldable pub end_position : List T → Option (Edge T) → ℕ
  end_position nodes none = 0
  end_position nodes (some edge) =
      or_default (Option.map suc (find_index (λ node. same node edge.node) nodes)) 0

  unfoldable pub page_of : List T → PaginationArgs → List (Edge T) → Connection T
  page_of nodes args edges = record {
    edges = edges;
    page_info = record {
      has_next_page = is_size args.first && ltb (end_position nodes (last_of edges)) (length nodes);
      has_previous_page = is_size args.last && ltb (length edges) (length nodes);
      start_cursor = Option.map Edge.cursor (first_of edges);
      end_cursor = Option.map Edge.cursor (last_of edges);
    };
    total_count = length nodes;
  }

  unfoldable pub create_connection : List T → PaginationArgs → Result T
  create_connection nodes args =
      if is_size args.first && is_size args.last
      then user_input_error "Cannot use `first` and `last` simultaneously."
      else if is_cursor args.after && is_cursor args.before
      then user_input_error "Cannot use `after` and `before` simultaneously."
      else connection (
          page_of nodes args (
            limit_to args.first args.last
              (keep_until args.before (drop_until args.after (map edge_of nodes)))))
