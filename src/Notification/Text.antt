-- ===== src/Notification/Text.antt =====
-- internal/notification/notification.go: the text of a detail, and when a notification counts as sent.
use Prim.Native.Char.{code}
use ocihood.Base.{
  ℕ, ◌-◌, ◌≤◌, ◌<◌, String, Bool, true, false, ◌≡◌, ◌≢◌, ◌↔◌, refl, none, some, arith, ◌==◌, ltb,
  leb, contains_char, Bool-cases, inl, inr, str_eq, eq_iff,
}
use ocihood.Io.{ok}
use ocihood.Notification.{
  Event, char_bytes, text_bytes, take_bytes, unlined, sanitize, Telegram, Post, Answer, response,
  post_of, fault_of, notify, unbuilt, unsent,
}
use ocihood.Io.{err}

abbrev is_newline : ℕ → Bool
is_newline c = c == 10

-- No line ends in the text.
abbrev pub IsOneLine : String → Type 0
IsOneLine s = contains_char is_newline s ≡ false

unlined-IsOneLine : (s : String) → IsOneLine (unlined s)
unfolding unlined contains_char
unlined-IsOneLine String.[] = refl
unlined-IsOneLine (String.◌∷◌ c s) = ground (arith, unlined-IsOneLine s)

take_bytes-IsOneLine : (n : ℕ) (s : String) → IsOneLine s → IsOneLine (take_bytes n s)
unfolding take_bytes contains_char
take_bytes-IsOneLine n String.[] h = refl
take_bytes-IsOneLine n (String.◌∷◌ c s) h = elim (Bool-cases (leb (char_bytes (code c)) n)) [
  | inl fits ↦
      let rest = take_bytes-IsOneLine (n - char_bytes (code c)) s (ground arith) in
      rw (fits, take_bytes) (ground arith)
  | inr cut ↦ rw (cut, take_bytes) refl
]

text_bytes-take_bytes : (n : ℕ) (s : String) → text_bytes (take_bytes n s) ≤ n
unfolding text_bytes take_bytes
text_bytes-take_bytes n String.[] = omega arith
text_bytes-take_bytes n (String.◌∷◌ c s) = elim (Bool-cases (leb (char_bytes (code c)) n)) [
  | inl fits ↦
      let rest = text_bytes-take_bytes (n - char_bytes (code c)) s in
      rw (fits, take_bytes) (ground arith)
  | inr cut ↦ rw (cut, take_bytes) (omega arith)
]

-- The detail of an event is sent as one line of at most 300 bytes, whatever it holds.
pub sanitize_bounds : (s : String) → (text_bytes (sanitize s) ≤ 300) × IsOneLine (sanitize s)
unfolding sanitize
sanitize_bounds s = elim (Bool-cases (ltb 300 (text_bytes (unlined s)))) [
  | inl long ↦
      rw (long, sanitize)
        (
          text_bytes-take_bytes 300 (unlined s),
          take_bytes-IsOneLine 300 (unlined s) (unlined-IsOneLine s),
        )
  | inr short ↦ rw (short, sanitize) (ground arith, unlined-IsOneLine s)
]

-- A response with a status of success and a document that says so.
abbrev pub Accepts : Answer → Type 0
Accepts (response status (ok accepted)) = (accepted ≡ true) × (200 ≤ status) × (status < 300)
Accepts _ = ⊥

fault_of_iff : (a : Answer) → (fault_of a ≡ none) ↔ Accepts a
unfolding fault_of
fault_of_iff (response status (ok accepted)) = ground arith
fault_of_iff (response status (err e)) = ground arith
fault_of_iff (unbuilt e) = ground arith
fault_of_iff (unsent none) = ground arith
fault_of_iff (unsent (some e)) = ground arith

-- A notification counts as sent exactly when the notifier has a token and a chat, and the post of the
-- event's text was answered with a status of success and a document that accepts it.
pub notify_iff :
    (transport : Post → Answer) (t : Telegram) (e : Event)
    → (notify transport t e ≡ none)
      ↔ ((t.token ≢ "") × (t.chat_id ≢ "") × Accepts (transport (post_of t e)))
unfolding notify
notify_iff transport t e =
    let (f, g) = fault_of_iff (transport (post_of t e)) in
    elim (Bool-cases (str_eq t.token "")) [
      | inl no_token ↦ (λ h. absurd (ground arith), λ h. absurd (ground (arith, eq_iff t.token "")))
      | inr token ↦ elim (Bool-cases (str_eq t.chat_id "")) [
        | inl no_chat ↦
            (λ h. absurd (ground arith), λ h. absurd (ground (arith, eq_iff t.chat_id "")))
        | inr chat ↦ (
          λ h. (
            ground (arith, eq_iff t.token ""),
            ground (arith, eq_iff t.chat_id ""),
            f (rw (token, chat, notify) at h),
          ),
          λ h. rw (token, chat, notify) (g h.2),
        )
      ]
    ]
