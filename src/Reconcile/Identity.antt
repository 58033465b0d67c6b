-- ===== src/Reconcile/Identity.antt =====
-- internal/reconcile/reconcile.go: `Target` and its identity: the digest of the canonical JSON of the normalised target. The digest
-- `sha256` is a parameter: it takes a text to the hexadecimal digits of its SHA-256 sum.
use Prim.Native.Char.{Char, code}
use ocihood.Base.{
  ℕ, String, Bool, true, false, [], ◌∷◌, ◌^^◌, ◌||◌, if◌then◌else◌, ltb, ◌==◌, to_lower, trim_space,
  hex, decimal, join, ℤ, pos, negsuc, suc,
}
use ocihood.Reconcile.{normal_account}

pub record Target : Type 0 where
  pub account : String
  pub region : String
  pub compartment_id : String
  pub subnet_id : String
  pub image_id : String
  pub shape : String
  pub ocpus : ℤ
  pub memory_gb : ℤ
  pub boot_volume_gb : ℤ
  pub public_ip : Bool

-- The normalisation at the head of `ID`.
unfoldable pub normalize : Target → Target
normalize t = record {
  account = normal_account t.account;
  region = to_lower (trim_space t.region);
  compartment_id = trim_space t.compartment_id;
  subnet_id = trim_space t.subnet_id;
  image_id = trim_space t.image_id;
  shape = trim_space t.shape;
  ocpus = t.ocpus;
  memory_gb = t.memory_gb;
  boot_volume_gb = t.boot_volume_gb;
  public_ip = t.public_ip;
}

-- `\u00XX`
unicode_escape : ℕ → String
unfolding hex
unicode_escape c = "\\u00" ^^ hex (c ∷ [])

-- One character of a JSON string, as `encoding/json` escapes it.
json_char : Char → String
unfolding unicode_escape
json_char c =
    let n = code c in
    if n == 0x22
    then "\\\""
    else if n == 0x5c
    then "\\\\"
    else if n == 8
    then "\\b"
    else if n == 9
    then "\\t"
    else if n == 10
    then "\\n"
    else if n == 12
    then "\\f"
    else if n == 13
    then "\\r"
    else if ltb n 0x20 || n == 0x26 || n == 0x3c || n == 0x3e
    then unicode_escape n
    else if n == 0x2028
    then "\\u2028"
    else if n == 0x2029
    then "\\u2029"
    else String.◌∷◌ c ""

json_chars : String → String
json_chars String.[] = ""
json_chars (String.◌∷◌ c s) = json_char c ^^ json_chars s

unfoldable pub json_string : String → String
unfolding json_char json_chars
json_string s = "\"" ^^ json_chars s ^^ "\""

unfoldable pub json_int : ℤ → String
unfolding decimal
json_int (pos n) = decimal n
json_int (negsuc n) = "-" ^^ decimal (suc n)

abbrev json_bool : Bool → String
json_bool true = "true"
json_bool false = "false"

abbrev json_field : String → String → String
json_field name value = "\"" ^^ name ^^ "\":" ^^ value

-- `json.Marshal(t)`
unfoldable pub target_json : Target → String
unfolding json_string json_int join
target_json t =
    "{"
    ^^ join "," (
        json_field "account" (json_string t.account)
        ∷ json_field "region" (json_string t.region)
        ∷ json_field "compartment_id" (json_string t.compartment_id)
        ∷ json_field "subnet_id" (json_string t.subnet_id)
        ∷ json_field "image_id" (json_string t.image_id)
        ∷ json_field "shape" (json_string t.shape)
        ∷ json_field "ocpus" (json_int t.ocpus)
        ∷ json_field "memory_gb" (json_int t.memory_gb)
        ∷ json_field "boot_volume_gb" (json_int t.boot_volume_gb)
        ∷ json_field "public_ip" (json_bool t.public_ip)
        ∷ [])
    ^^ "}"

unfoldable pub target_id : (String → String) → Target → String
target_id sha256 t = sha256 (target_json (normalize t))
