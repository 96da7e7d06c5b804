-- ===== src/Pagination/Examples.antt =====
-- Tests of the connections, and the theorems at concrete pages.
use stellar_analytics_dashbo.Prelude.{
  ℕ, zero, suc, ◌≡◌, refl, String, Bool, true, false, none, some, [], ◌∷◌, map, ◌==◌, ==_iff, arith,
}
use stellar_analytics_dashbo.Prelude.Text.{str_eq}
use stellar_analytics_dashbo.Pagination.{
  PaginationArgs, Connection, Result, user_input_error, connection, edge_of, index_of_cursor,
  drop_until, keep_until, limit_to, end_position, page_of, create_connection,
}
use stellar_analytics_dashbo.Pagination.Forward.{page_args, pages, pages-all, past_end}
use stellar_analytics_dashbo.Pagination.Backward.{args_before, before-page}

abbrev name : ℕ → String
name zero = "a"
name (suc zero) = "b"
name (suc (suc n)) = "c"

abbrev as_is : String → String
as_is s = s

abbrev same : ℕ → ℕ → Bool
same a b = a == b

same_refl : (x : ℕ) → same x x ≡ true
same_refl x = (==_iff x x).1 refl

given : (x : ℕ) → str_eq (as_is (name x)) "" ≡ false
given zero = refl
given (suc zero) = refl
given (suc (suc n)) = refl

abbrev page : PaginationArgs → Result ℕ
page args = create_connection as_is as_is same name (0 ∷ 1 ∷ 2 ∷ []) args

middle_page :
    page (page_args 1 (some "a"))
    ≡ connection (record {
      edges = record { node = 1; cursor = "b" } ∷ [];
      page_info = record {
        has_next_page = true;
        has_previous_page = false;
        start_cursor = some "b";
        end_cursor = some "b";
      };
      total_count = 3;
    })
unfolding create_connection page_of limit_to drop_until keep_until end_position index_of_cursor
    edge_of
middle_page = refl

-- A cursor that no node has is ignored.
unknown_cursor : page (page_args 5 (some "x")) ≡ page (page_args 5 none)
unfolding create_connection page_of limit_to drop_until keep_until end_position index_of_cursor
    edge_of
unknown_cursor = refl

both_sizes :
    page (record { first = some 1; after = none; last = some 1; before = none })
    ≡ user_input_error "Cannot use `first` and `last` simultaneously."
unfolding create_connection
both_sizes = refl

pages-all_example : pages as_is as_is same name 4 (0 ∷ 1 ∷ 2 ∷ []) 2 none ≡ some (0 ∷ 1 ∷ 2 ∷ [])
pages-all_example =
    pages-all as_is as_is same name given same_refl 2 (0 ∷ 1 ∷ 2 ∷ []) (omega arith)
      ((refl, (refl, tt)), ((refl, tt), (tt, tt))) ((refl, (refl, tt)), ((refl, tt), (tt, tt)))

past_end_example :
    page (page_args 2 (some "c"))
    ≡ connection (record {
      edges = [];
      page_info = record {
        has_next_page = true;
        has_previous_page = false;
        start_cursor = none;
        end_cursor = none;
      };
      total_count = 3;
    })
past_end_example =
    past_end as_is as_is same name given 2 (0 ∷ 1 ∷ []) 2 (omega arith)
      ((refl, (refl, tt)), ((refl, tt), (tt, tt)))

before-page_example :
    (c : Connection ℕ) × (page (args_before 2 "b") ≡ connection c)
    × (c.edges ≡ map (edge_of as_is as_is same name) (0 ∷ []))
    × (c.page_info.has_previous_page ≡ true)
before-page_example =
    before-page as_is as_is same name given 2 (0 ∷ []) 1 (2 ∷ []) (omega arith)
      ((refl, (refl, tt)), ((refl, tt), (tt, tt)))
