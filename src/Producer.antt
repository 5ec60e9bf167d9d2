-- ===== src/Producer.antt =====
-- cmd/producer/main.go: the test orders that it sends. The random number and the clock are arguments.
pub mod Numbers
pub mod Valid
pub mod Send
use wb_l.Base.Lists.{length}
use wb_l.Base.Int.{pos}
use wb_l.DeadLetters.{unix_seconds}
use wb_l.Base.Decimal.{digits}
use wb_l.Base.Time.{Time}
use wb_l.Base.Text.{codes, Text}
use wb_l.Base.{zero, [], ◌∷◌, ◌-◌, suc, ℕ, ◌++◌}
use wb_l.Models.{Item, Order, Payment, Delivery}

abbrev zeros : ℕ → Text
zeros zero = []
zeros (suc n) = b'0' ∷ zeros n

-- `fmt.Sprintf("%08d", n)`
unfoldable pub padded : ℕ → Text
unfolding digits
padded n = zeros (8 - length (digits n)) ++ digits n

unfoldable pub numbered : Text → ℕ → Text
unfolding padded
numbered prefix id = prefix ++ padded id

abbrev pub test_delivery : Delivery
test_delivery = record {
  name = codes "Test User";
  phone = codes "+7(999)777-32-32";
  zip = codes "12345";
  city = codes "Test City";
  address = codes "123 Test St";
  region = codes "NY";
  email = codes "test@example.com";
}

unfoldable pub test_payment : Time → ℕ → Payment
unfolding numbered unix_seconds
test_payment now id = record {
  transaction = numbered (codes "test") id;
  request_id = numbered (codes "req") id;
  currency = codes "USD";
  provider = codes "test";
  amount = pos 1000;
  payment_dt = unix_seconds now;
  bank = codes "test";
  delivery_cost = pos 100;
  goods_total = pos 900;
  custom_fee = pos 0;
}

unfoldable pub test_item : ℕ → Item
unfolding numbered
test_item id = record {
  chrt_id = pos id;
  track_number = numbered (codes "TRACK") id;
  price = pos 1000;
  rid = numbered (codes "rid") id;
  name = codes "Test Item";
  sale = pos 10;
  size = codes "M";
  total_price = pos 900;
  nm_id = pos id;
  brand = codes "Test";
  status = pos 200;
}

-- `rand.Intn(100000000)` gives a number below this.
abbrev pub id_bound : ℕ
id_bound = 100000000

unfoldable pub generate_order : Time → ℕ → Order
unfolding numbered test_payment test_item
generate_order now id = record {
  order_uid = numbered (codes "test") id;
  track_number = numbered (codes "TRACK") id;
  entry = codes "WBIL";
  delivery_id = pos 0;
  delivery = test_delivery;
  payment = test_payment now id;
  items = test_item id ∷ [];
  locale = codes "en";
  internal_signature = numbered (codes "sig") id;
  customer_id = numbered (codes "cust") id;
  delivery_service = codes "test";
  shardkey = codes "1";
  sm_id = pos 1;
  date_created = now;
  oof_shard = codes "1";
}
