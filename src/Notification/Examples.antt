-- ===== src/Notification/Examples.antt =====
-- Tests and witnesses of the notifications.
use ocihood.Base.{join, ◌≡◌, ◌≤◌, refl, pos}
use ocihood.Notification.{Event, waiting, sanitize, format, Telegram, post_of, text_bytes}
use ocihood.Notification.Text.{IsOneLine, sanitize_bounds}

abbrev an_event : Event
an_event = record {
  kind = waiting;
  account = "home";
  region = "eu-1";
  target_id = "t1";
  instance_id = "";
  public_ip = "";
  detail = "first line\nsecond";
}

abbrev bot : Telegram
bot = record { endpoint = "https://example.org/"; token = "secret"; chat_id = "7"; timeout = pos 0 }

format_test :
    format an_event ≡ "waiting account=home region=eu-1 target=t1 detail=first line second"
unfolding format join
format_test = refl

url_test : (post_of bot an_event).url ≡ "https://example.org/botsecret/sendMessage"
unfolding post_of
url_test = refl

sanitize_bounds_example :
    (text_bytes (sanitize "first line\nsecond") ≤ 300) × IsOneLine (sanitize "first line\nsecond")
sanitize_bounds_example = sanitize_bounds "first line\nsecond"
