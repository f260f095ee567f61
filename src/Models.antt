-- ===== src/Models.antt =====
-- internal/models/lottery_result.go, and what the program uses of Go's float64 and time.Time.
-- A time is a number, and 0 stands for Go's zero time (`IsZero`); Before and After compare numbers.
use Prim.Native.String.{String}
use stat_tree_server.Base.{ℕ, Bool, List}

-- The float64 operations in use, which the development does not define.
pub record Float64 : Type 1 where
  pub F : Type 0
  pub of_nat : ℕ → F
  pub add : F → F → F
  pub sub : F → F → F
  pub mul : F → F → F
  pub div : F → F → F
  pub lt : F → F → Bool
  pub le : F → F → Bool

pub record LotteryResult (F : Type 0) : Type 0 where
  pub id : ℕ
  pub draw_number : ℕ
  pub draw_date : ℕ
  pub numbers : List ℕ
  pub strong : ℕ
  pub lottery_type : String
  pub prize_amounts : List F
  pub created_at : ℕ
  pub updated_at : ℕ

pub record DrawRef : Type 0 where
  pub draw_number : ℕ
  pub draw_date : ℕ
