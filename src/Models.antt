-- ===== src/Models.antt =====
-- internal/models/orders.go: the data of an order. Validation is in Patterns, Errors and Validate, and
-- what it guarantees in the other children.
pub mod Errors
pub mod Messages
pub mod Patterns
pub mod Validate
pub mod Items
pub mod Parts
pub mod Orders
pub mod Totals
use wb_l.Base.Int.{ℤ}
use wb_l.Base.Text.{Text}
use wb_l.Base.Time.{Time}
use wb_l.Base.{List}

pub record Delivery : Type 0 where
  pub name : Text
  pub phone : Text
  pub zip : Text
  pub city : Text
  pub address : Text
  pub region : Text
  pub email : Text

pub record Payment : Type 0 where
  pub transaction : Text
  pub request_id : Text
  pub currency : Text
  pub provider : Text
  pub amount : ℤ
  pub payment_dt : ℤ
  pub bank : Text
  pub delivery_cost : ℤ
  pub goods_total : ℤ
  pub custom_fee : ℤ

pub record Item : Type 0 where
  pub chrt_id : ℤ
  pub track_number : Text
  pub price : ℤ
  pub rid : Text
  pub name : Text
  pub sale : ℤ
  pub size : Text
  pub total_price : ℤ
  pub nm_id : ℤ
  pub brand : Text
  pub status : ℤ

pub record Order : Type 0 where
  pub order_uid : Text
  pub track_number : Text
  pub entry : Text
  pub delivery_id : ℤ
  pub delivery : Delivery
  pub payment : Payment
  pub items : List Item
  pub locale : Text
  pub internal_signature : Text
  pub customer_id : Text
  pub delivery_service : Text
  pub shardkey : Text
  pub sm_id : ℤ
  pub date_created : Time
  pub oof_shard : Text
