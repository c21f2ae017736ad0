-- ===== src/Records.antt =====
-- webapp/models: the rows of the tables that the stock calculation reads and writes.
-- A date column holds a fixed-width ISO date, which orders as the date does; it is modelled by the
-- number of the day (`date.toordinal`). A time column is a number of microseconds.
pub mod Books
pub use Books.*
use daily_figures.Common.{
  ℕ, ◌+◌, ◌-◌, ◌*◌, suc, Bool, true, false, ◌&&◌, Option, none, some, List, String, ℤ, pos, negsuc,
  leb, ltb, if◌then◌else◌, filter_where, find_first, sort_desc,
}
use daily_figures.Packaging.{PackagingRule}

-- webapp/models/user.py
pub data Role : Type 0 where
  super_admin manager accountant operator salesperson viewer : Role

pub record User : Type 0 where
  pub id : ℕ
  pub username : String
  pub role : Role

-- `user.role in (ROLE_MANAGER, ROLE_SUPER_ADMIN)`
abbrev pub is_elevated : Role → Bool
is_elevated super_admin = true
is_elevated manager = true
is_elevated _ = false

abbrev pub is_operator : Role → Bool
is_operator operator = true
is_operator _ = false

-- webapp/models/product.py, with the period in which each packaging rule is in force.
pub record DatedRule : Type 0 where
  pub rule : PackagingRule
  pub effective_from : ℕ
  pub effective_to : Option ℕ

pub record Product : Type 0 where
  pub id : ℕ
  pub active : Bool
  pub packaging_rules : List DatedRule

-- `starts <= at and (ends is None or at < ends)`
abbrev pub is_in_force : ℕ → DatedRule → Bool
is_in_force at r =
    leb r.effective_from at && elim r.effective_to [ none ↦ true | some ends ↦ ltb at ends ]

unfoldable pub current_packaging_rule : Product → ℕ → Option PackagingRule
current_packaging_rule p at =
    elim (find_first (is_in_force at) (sort_desc (λ r. r.effective_from) p.packaging_rules)) [
      | none ↦ none
      | some r ↦ some r.rule
    ]
