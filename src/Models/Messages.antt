-- ===== src/Models/Messages.antt =====
-- The texts of the errors of models/orders.go: `Error()` of a ValidationError, and the error that `Validate` of an
-- order makes of an item's.
use wb_l.Base.Decimal.{decimal}
use wb_l.Base.{◌∷◌, List, [], ◌++◌}
use wb_l.Base.Text.{Text, codes}
use wb_l.Base.Int.{pos}
use wb_l.Models.Errors.{Piece, lit, num, str, Struct, ValidationError, ModelError, plain, in_item}

piece_text : Piece → Text
unfolding decimal
piece_text (lit s) = codes s
piece_text (num n) = decimal n
piece_text (str t) = t

unfoldable pub message_text : List Piece → Text
unfolding piece_text
message_text [] = []
message_text (p ∷ ps) = piece_text p ++ message_text ps

abbrev struct_text : Struct → Text
struct_text Struct.order = codes "order"
struct_text Struct.delivery = codes "delivery"
struct_text Struct.payment = codes "payment"
struct_text Struct.item = codes "item"

unfoldable pub validation_text : ValidationError → Text
unfolding message_text
validation_text e =
    codes "Validation error in field "
    ++ (struct_text e.struct ++ (b'.' ∷ (codes e.field ++ (codes ": " ++ message_text e.message))))

unfoldable pub model_text : ModelError → Text
unfolding validation_text decimal
model_text (plain e) = validation_text e
model_text (in_item n e) =
    codes "item[" ++ (decimal (pos n) ++ (codes "]:" ++ (9 ∷ validation_text e)))
