-- ===== src/Truncatable/Tests.antt =====
-- Searches from the zeroed memo.
use xtest.Base.{◌≡◌, ◌↔◌, Bool, true, done, arith}
use xtest.Truncatable.{Memo, zeroed, is_right_truncatable}
use xtest.Truncatable.Correct.{IsTruncatable, IsValid, zeroed-IsValid, is_right_truncatable_lem}

is_right_truncatable_lem_example :
    (b : Bool) × (after : Memo) × (is_right_truncatable zeroed 201 ≡ done (b, after))
    × ((b ≡ true) ↔ IsTruncatable 201)
    × IsValid after
is_right_truncatable_lem_example = is_right_truncatable_lem zeroed 201 (omega arith) zeroed-IsValid
