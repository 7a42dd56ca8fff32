-- ===== src/CardBudget/Nodes.antt =====
-- The tree of a card, `CardNode` of src/card/card-budget.ts. Of the fields that the module does not
-- name, a node holds how many elements lie in them, and a number for all else. An absent list of
-- elements is empty.
use lark_remote.Common.{ℕ, ◌+◌, String, Bool, List, [], ◌∷◌, Option, str_eq, suc}

pub record OtherFields : Type 0 where
  pub members : ℕ
  pub content : ℕ

pub record CardText : Type 0 where
  pub tag : String
  pub content : List ℕ

pub record ElementHead : Type 0 where
  pub tag : String
  pub text : Option CardText
  pub other : OtherFields

mutual
  pub data CardElement : Type 0 where
    element : ElementHead → Elements → Columns → CardElement

  pub data Elements : Type 0 where
    no_elements : Elements
    more_elements : CardElement → Elements → Elements

  pub data Columns : Type 0 where
    no_columns : Columns
    more_columns : OtherFields → Elements → Columns → Columns

pub record CardNode : Type 0 where
  pub elements : List CardElement
  pub other : OtherFields

abbrev pub head_of : CardElement → ElementHead
head_of (element head inner cols) = head

-- `countCardElements`, which does not count the columns themselves.
unfoldable mutual
  pub members_of : CardElement → ℕ
  members_of (element head inner cols) =
      head.other.members + members_in inner + members_in_columns cols

  pub members_in : Elements → ℕ
  members_in no_elements = 0
  members_in (more_elements e es) = suc (members_of e + members_in es)

  pub members_in_columns : Columns → ℕ
  members_in_columns no_columns = 0
  members_in_columns (more_columns other es rest) =
      other.members + members_in es + members_in_columns rest

unfoldable pub count_members : List CardElement → ℕ
unfolding members_of
count_members [] = 0
count_members (e ∷ es) = suc (members_of e + count_members es)

unfoldable pub count_card_elements : CardNode → ℕ
unfolding count_members
count_card_elements card = card.other.members + count_members card.elements

abbrev pub is_panel : CardElement → Bool
is_panel e = str_eq (head_of e).tag "collapsible_panel"
