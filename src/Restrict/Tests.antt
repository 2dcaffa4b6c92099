-- ===== src/Restrict/Tests.antt =====
-- Answers of an object and of a stream, restricted to one property.
use toa.Prelude.{refl, true, none, some, [], ◌∷◌, All}
use toa.Restrict.{Answer, record_of, replied, bare, object, restrict}
use toa.Restrict.Exact.{shown, IsHidden, restrict-IsHidden}

abbrev account : Answer
account = replied (record { output = record_of ((1, 10) ∷ (2, 20) ∷ (3, 30) ∷ []); error = none })

abbrev accounts : Answer
accounts = bare true (object ((1, 10) ∷ (2, 20) ∷ []) ∷ object ((2, 21) ∷ []) ∷ [])

restrict-IsHidden_example : All IsHidden (shown 1 (restrict accounts (some (2 ∷ []))))
restrict-IsHidden_example = restrict-IsHidden 1 (2 ∷ []) accounts refl
