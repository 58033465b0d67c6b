-- ===== src/Notification.antt =====
-- internal/notification/notification.go: the events, their text, and the Telegram notifier, whose
-- transport is a parameter. Lengths are those of the UTF-8 encoding; of a character that the cut of a
-- detail would split nothing is kept here.
pub mod Text
mod Examples
use Prim.Native.String
use Prim.Native.Char.{code}
use Prim.Native.Char
use ocihood.Base.{
  ℕ, zero, ◌+◌, ◌-◌, String, Bool, true, false, ◌||◌, not, Option, none, some, List, [], ◌∷◌, ◌++◌,
  ◌^^◌, str_eq, ltb, leb, ◌==◌, if◌then◌else◌, join, decimal, ℤ, pos, le_int, ◌*◌,
}
use ocihood.Errors.{Err, message, wrapped}
use ocihood.Io.{Result, ok, err}
use ocihood.Time.{second}

-- The `Kind` constants.
pub data EventKind : Type 0 where
  run_started waiting degraded capacity_found instance_running terminal_failure paused resumed :
      EventKind

unfoldable pub event_kind_text : EventKind → String
event_kind_text run_started = "run_started"
event_kind_text waiting = "waiting"
event_kind_text degraded = "degraded"
event_kind_text capacity_found = "capacity_found"
event_kind_text instance_running = "instance_running"
event_kind_text terminal_failure = "terminal_failure"
event_kind_text paused = "paused"
event_kind_text resumed = "resumed"

pub record Event : Type 0 where
  pub kind : EventKind
  pub account : String
  pub region : String
  pub target_id : String
  pub instance_id : String
  pub public_ip : String
  pub detail : String

-- The bytes of a character in UTF-8.
unfoldable pub char_bytes : ℕ → ℕ
char_bytes c = if ltb c 0x80 then 1 else if ltb c 0x800 then 2 else if ltb c 0x10000 then 3 else 4

-- `len(s)`
unfoldable pub text_bytes : String → ℕ
unfolding char_bytes
text_bytes String.[] = 0
text_bytes (String.◌∷◌ c s) = char_bytes (code c) + text_bytes s

-- `s[:n]`
unfoldable pub take_bytes : ℕ → String → String
unfolding char_bytes
take_bytes n String.[] = ""
take_bytes n (String.◌∷◌ c s) =
    let rest = take_bytes (n - char_bytes (code c)) s in
    if leb (char_bytes (code c)) n then String.◌∷◌ c rest else ""

-- `strings.ReplaceAll(s, "\n", " ")`
unfoldable pub unlined : String → String
unlined String.[] = ""
unlined (String.◌∷◌ c s) =
    let rest = unlined s in if code c == 10 then String.◌∷◌ " " rest else String.◌∷◌ c rest

unfoldable pub sanitize : String → String
unfolding text_bytes take_bytes unlined
sanitize s = let t = unlined s in if ltb 300 (text_bytes t) then take_bytes 300 t else t

-- A part that is left out where its value is empty.
abbrev part : String → String → List String
part label value = if str_eq value "" then [] else (label ^^ value) ∷ []

unfoldable pub format : Event → String
unfolding event_kind_text sanitize
format e = join " " (
    (event_kind_text e.kind
      ∷ ("account=" ^^ e.account)
      ∷ ("region=" ^^ e.region)
      ∷ ("target=" ^^ e.target_id)
      ∷ [])
    ++ part "instance=" e.instance_id
    ++ part "public_ip=" e.public_ip
    ++ (if str_eq e.detail "" then [] else ("detail=" ^^ sanitize e.detail) ∷ []))

pub record Telegram : Type 0 where
  pub endpoint : String
  pub token : String
  pub chat_id : String
  pub timeout : ℤ

-- The form that is posted.
pub record Post : Type 0 where
  pub url : String
  pub chat_id : String
  pub text : String
  pub timeout : ℤ

-- What the transport answers.
pub data Answer : Type 0 where
  -- The URL is no URL.
  unbuilt : Err → Answer
  -- No response: the context's error, where it is over.
  unsent : Option Err → Answer
  -- A response: its status, and the `ok` of its document.
  response : ℕ → Result Bool → Answer

-- `strings.TrimRight(s, "/")`
unfoldable pub trim_slashes : String → String
trim_slashes String.[] = ""
trim_slashes (String.◌∷◌ c s) =
    let rest = trim_slashes s in
    if code c == 0x2f then (if str_eq rest "" then "" else String.◌∷◌ c rest) else String.◌∷◌ c rest

unfoldable pub post_of : Telegram → Event → Post
unfolding trim_slashes format
post_of t e = record {
  url =
      trim_slashes (if str_eq t.endpoint "" then "https://api.telegram.org" else t.endpoint)
      ^^ "/bot"
      ^^ t.token
      ^^ "/sendMessage";
  chat_id = t.chat_id;
  text = format e;
  timeout = if le_int t.timeout (pos 0) then pos (10 * second) else t.timeout;
}

unfoldable pub fault_of : Answer → Option Err
fault_of (unbuilt e) = some (wrapped "build telegram request" e)
fault_of (unsent (some e)) = some (wrapped "send telegram notification" e)
fault_of (unsent none) = some (message "send telegram notification: network request failed")
fault_of (response status (ok accepted)) =
    if ltb status 200 || leb 300 status
    then some (message ("telegram returned HTTP " ^^ decimal status))
    else if accepted
    then none
    else some (message "telegram rejected notification")
fault_of (response status (err e)) =
    if ltb status 200 || leb 300 status
    then some (message ("telegram returned HTTP " ^^ decimal status))
    else some (wrapped "decode telegram response" e)

unfoldable pub notify : (Post → Answer) → Telegram → Event → Option Err
unfolding fault_of post_of
notify transport t e =
    if str_eq t.token "" || str_eq t.chat_id ""
    then some (message "telegram notifier is not configured")
    else fault_of (transport (post_of t e))
