-- ===== src/NcServer/Format.antt =====
-- The texts that the menu sends.
use sui_ctf_infrastructure.Python.Errors.{Result, ok, ◌>>=◌}
use sui_ctf_infrastructure.Python.Values.{Value, get, truthy}
use sui_ctf_infrastructure.Python.Show.{str_value}
use sui_ctf_infrastructure.Challenge.Manifest.{Challenge}
use sui_ctf_infrastructure.Instances.Values.{PlayerView}
use sui_ctf_infrastructure.Instances.Control.{name_or_none}
use sui_ctf_infrastructure.Base.{
  ltb, if◌then◌else◌, ℤ, pos, pos_part, ℕ, ◌/◌, ◌%◌, List, [], ◌∷◌, ◌++◌,
}
use sui_ctf_infrastructure.Text.{Text, codes}
use sui_ctf_infrastructure.Text.Numbers.{decimal}
use sui_ctf_infrastructure.Python.Operators.{iterate}

abbrev pub menu : Text
menu = codes "\n1 - spawn instance\n2 - kill instance\n3 - flag\n>> "

-- `f"{n:02d}"`
unfoldable pub two_digits : ℕ → Text
unfolding decimal
two_digits n = if ltb n 10 then b'0' ∷ decimal n else decimal n

-- `_fmt_secs`
unfoldable pub fmt_secs : ℤ → Text
unfolding two_digits
fmt_secs secs = let n = pos_part secs in two_digits (n / 60) ++ b':' ∷ two_digits (n % 60)

abbrev pub double_rule : Text
double_rule = codes "============================================================"

abbrev pub single_rule : Text
single_rule = codes "------------------------------------------------------------"

unfoldable pub banner : Challenge → Text
unfolding str_value
banner ch =
    codes "\n"
    ++ double_rule
    ++ codes "\n "
    ++ str_value ch.name
    ++ codes "\n "
    ++ str_value ch.description
    ++ codes "\n"
    ++ double_rule
    ++ codes "\n"

-- `"\n".join(lines)`
unfoldable pub join_lines : List Text → Text
join_lines [] = []
join_lines (l ∷ []) = l
join_lines (l ∷ m ∷ ls) = l ++ b'\n' ∷ join_lines (m ∷ ls)

-- A line for each object: its type and its id.
abbrev pub object_lines : List Value → Result (List Text)
object_lines [] = ok []
object_lines (o ∷ os) = do
  otype ← get o (codes "type")
  oid ← get o (codes "objectId")
  rest ← object_lines os
  ok ((codes "   - " ++ str_value otype ++ codes "  ->  " ++ str_value oid) ∷ rest)

abbrev pub objects_part : Value → Result (List Text)
objects_part objects =
    if truthy objects
    then (iterate objects >>= object_lines >>= λ ls. ok (codes " objects:" ∷ ls))
    else ok []

-- `_format_instance`
unfoldable pub format_instance : PlayerView → Result Text
unfolding join_lines fmt_secs str_value
format_instance r = do
  lines ← objects_part r.objects
  ok (
      join_lines (
        double_rule
        ∷ (codes " Instance ready!   (challenge: " ++ r.challenge ++ codes ")")
        ∷ double_rule
        ∷ (codes " uuid          : " ++ r.uuid)
        ∷ (codes " rpc_url       : " ++ name_or_none r.rpc_url)
        ∷ (codes " private_key   : " ++ name_or_none r.private_key)
        ∷ (codes " your address  : " ++ name_or_none r.player_address)
        ∷ (codes " package_id    : " ++ name_or_none r.package_id)
        ∷ (lines
            ++ (codes " expires in    : "
                ++ fmt_secs (pos r.seconds_remaining)
                ++ codes "  (auto-destroyed)")
              ∷ single_rule
              ∷ codes " Keep your uuid PRIVATE — anyone who has it (or your rpc_url, which"
              ∷ codes " contains it) can read/drain/claim/destroy your instance."
              ∷ codes " Option 3 + your uuid = the flag; option 2 = destroy early."
              ∷ double_rule
              ∷ []))
      ++ b'\n' ∷ [])
