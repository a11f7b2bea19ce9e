-- ===== src/Cpuid/Flag.antt =====
-- A feature bit, and how its name is printed.
use Prim.Native.String.{String}
use text.Mathlib.Text
use xtest.Base.{ℕ, ◌/◌, ◌%◌, ◌^◌, ◌==◌, if◌then◌else◌, Bool, false, not, ◌||◌, List, [], ◌∷◌}

pub data Reg : Type 0 where
  eax : Reg
  ebx : Reg
  ecx : Reg
  edx : Reg

-- What one `cpuid` instruction leaves: four numbers below 2 ^ 32, each in an `unsigned long`.
pub record Regs : Type 0 where
  pub a : ℕ
  pub b : ℕ
  pub c : ℕ
  pub d : ℕ

abbrev pub value : Reg → Regs → ℕ
value eax r = r.a
value ebx r = r.b
value ecx r = r.c
value edx r = r.d

pub data Flag : Type 0 where
  flag : Reg → ℕ → String → Flag

-- `w & (1 << bit)`. The int `1 << 31` is negative and widens to the bits from 31 on.
abbrev pub has : ℕ → ℕ → Bool
has w bit = if bit == 31 then not (w / 2 ^ 31 == 0) else not (w / 2 ^ bit % 2 == 0)

unfoldable pub print_flags : List Flag → Regs → List String
print_flags [] r = []
print_flags (flag reg bit name ∷ rest) r =
    let more = print_flags rest r in if has (value reg r) bit then name ∷ more else more

-- Whether a text is among those printed.
abbrev pub says : String → List String → Bool
says name [] = false
says name (word ∷ rest) = Text.◌==◌ word name || says name rest
