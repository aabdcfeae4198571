-- ===== src/Qt.antt =====
-- What the program calls of Qt's text classes and of the socket library, as a parameter. None of
-- it is implemented in the repository. A text is its sequence of code units, so that `+=` is `++`
-- and a literal is its characters.
pub mod ListModel
use Prim.Native.Char.{code}
use mini_wireshark.Base.{ℕ, String, List, [], ◌∷◌, Bool, true, false, ◌==◌, ◌&&◌}
use mini_wireshark.Base.Int.{ℤ}

abbrev pub QString : Type 0
QString = List ℕ

-- A literal.
unfoldable pub qs : String → QString
qs String.[] = []
qs (String.◌∷◌ c s) = code c ∷ qs s

-- `operator==` of two texts.
unfoldable pub eq_qs : QString → QString → Bool
eq_qs [] [] = true
eq_qs [] (b ∷ t) = false
eq_qs (a ∷ s) [] = false
eq_qs (a ∷ s) (b ∷ t) = a == b && eq_qs s t

pub record Qt : Type 0 where
  -- QString::number(n) and QString::number(n, base)
  pub number : ℤ → QString
  pub number_base : ℕ → ℕ → QString
  -- s.arg(text), s.arg(n) and s.arg(n, width, base, fill)
  pub arg : QString → QString → QString
  pub arg_int : QString → ℤ → QString
  pub arg_width : QString → ℕ → ℕ → ℕ → ℕ → QString
  pub to_upper : QString → QString
  pub to_lower : QString → QString
  pub left_justified : QString → ℕ → ℕ → QString
  pub right_justified : QString → ℕ → ℕ → QString
  pub split : QString → ℕ → List QString
  pub join : List QString → QString → QString
  pub to_int : QString → ℤ
  pub starts_with : QString → QString → Bool
  pub contains : QString → QString → Bool
  -- inet_ntoa of the four bytes of an `in_addr`
  pub inet_ntoa : List ℕ → QString
