-- ===== src/Orders/Tests.antt =====
-- Runs of an order store, and the theorems at these.
use lark_remote.Common.{lit, List, [], ◌∷◌, none, some, ◌≡◌, refl, inl, inr, arith}
use lark_remote.Orders.{
  OrderEntry, OrderStore, unreadable, array, fields, no_entry, open_store, load, set_alias,
  alias_taken, is_alias_name,
}
use lark_remote.Orders.Alias.{expand_alias_message}
use lark_remote.Orders.Step.{OrderCall, do_call, do_calls, IsKept}
use lark_remote.Orders.Kept.{orders-IsKept}
use lark_remote.Orders.AliasLaws.{expand_alias-kept}

abbrev two_orders : List OrderCall
two_orders =
    OrderCall.saved (lit "run tests") "a" "t0"
    ∷ OrderCall.saved (lit "deploy") "b" "t1"
    ∷ OrderCall.aliased "b" (some (lit "go"))
    ∷ OrderCall.aliased "a" (some (lit "go"))
    ∷ OrderCall.edited "b" (lit " deploy now ")
    ∷ []

orders-IsKept_example : IsKept (do_calls two_orders (open_store unreadable))
unfolding do_call
orders-IsKept_example = orders-IsKept two_orders (refl, (refl, (tt, (tt, (tt, tt)))))

abbrev deploy : OrderEntry
deploy = record {
  id = "b";
  text = lit "deploy now";
  created_at = "t1";
  used_at = none;
  alias = some (lit "go");
}

abbrev run_tests : OrderEntry
run_tests = record {
  id = "a";
  text = lit "run tests";
  created_at = "t0";
  used_at = none;
  alias = none;
}

two_orders_lem : (do_calls two_orders (open_store unreadable)).orders ≡ run_tests ∷ deploy ∷ []
unfolding do_call
two_orders_lem = refl

abbrev shop : OrderStore
shop = open_store unreadable

abbrev kept_shop : OrderStore
kept_shop = record { file = unreadable; orders = run_tests ∷ deploy ∷ [] }

expand_alias-kept_example :
    expand_alias_message (lit "$go to prod") kept_shop ≡ lit "deploy now to prod"
unfolding is_alias_name
expand_alias-kept_example =
    expand_alias-kept kept_shop deploy (lit "go") (lit " to prod")
      (record {
        entries = ((omega arith, refl), ((omega arith, refl), tt));
        bounded = omega arith;
        ids = (refl, (refl, tt));
        aliases = (refl, (refl, tt));
      })
      (inr (inl refl)) refl refl

unknown_alias : expand_alias_message (lit "$gone") kept_shop ≡ lit "$gone"
unfolding expand_alias_message
unknown_alias = refl

alias_taken_lem : (set_alias "a" (some (lit "go")) kept_shop).1 ≡ alias_taken
unfolding set_alias
alias_taken_lem = refl

-- A file is taken as it is: two orders with one alias are loaded.
alias_twice :
    load (
      array (
        fields (some "a") (some (lit "x")) (some "t") none (some (lit "go"))
        ∷ no_entry
        ∷ fields (some "b") (some (lit "y")) (some "t") none (some (lit "go"))
        ∷ []))
    ≡ record run_tests { text = lit "x"; created_at = "t"; alias = some (lit "go") }
      ∷ record deploy { text = lit "y"; created_at = "t" }
      ∷ []
unfolding load
alias_twice = refl
