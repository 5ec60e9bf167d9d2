-- ===== src/Examples/Producers.antt =====
-- The theorems on cmd/producer/main.go at the number 42.
use wb_l.Producer.{generate_order}
use wb_l.Base.Lists.{length}
use wb_l.Models.Validate.{validate}
use wb_l.Producer.Valid.{order_uid_inj, generate_order-validate, length-order_uid}
use wb_l.Base.{none, ◌≡◌, ℕ, ◌↔◌, arith, ◌<◌, refl}
use wb_l.Base.Time.{after}
use wb_l.Examples.Orders.{moment}

generate_order-validate_example :
    (validate moment moment (generate_order moment 42) ≡ none) ↔ (0 < 42)
unfolding after
generate_order-validate_example =
    generate_order-validate moment moment moment 63900000000 42 refl (omega arith) (omega arith)
      refl refl (omega arith)

order_uid_inj_example : ◌≡◌ {A = ℕ} 42 42
order_uid_inj_example = order_uid_inj moment moment 42 42 (omega arith) (omega arith) refl

length-order_uid_example : length (generate_order moment 42).order_uid ≡ 12
length-order_uid_example = length-order_uid moment 42 (omega arith)
