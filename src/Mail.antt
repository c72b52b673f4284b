-- ===== src/Mail.antt =====
-- internal/email: the sender of the sign-in links. A mail is a request to the API of Resend, or a line
-- of the log when no key is set. The encoder of JSON, the constructor of a request and what the API
-- answers are parameters. `printed` and `posted` are what was logged and what was sent.
pub mod Delivery
use flight_circle_search.Base.{
  ℕ, Bool, true, false, Option, none, some, List, [], ◌∷◌, ◌++◌, Bytes, codes, Result, ok, err,
  length, nat_eq, ◌==◌, ltb, leb, ◌||◌, if◌then◌else◌, take,
}
use flight_circle_search.Config.{Config}

-- `resendRequest`
pub record ResendRequest : Type 0 where
  pub from : Bytes
  pub to : Bytes
  pub subject : Bytes
  pub html : Bytes

-- What `http.NewRequest` makes, with the headers that are set on it.
pub record HttpRequest : Type 0 where
  pub method : Bytes
  pub url : Bytes
  pub headers : List (Bytes × Bytes)
  pub body : Bytes

pub record Reply : Type 0 where
  pub status : ℕ
  pub body : Bytes

pub record ResendSender : Type 0 where
  pub api_key : Bytes
  pub from : Bytes
  pub api_url : Bytes

pub data Sender : Type 0 where
  stdout : Sender
  resend : ResendSender → Sender

-- The errors of `SendMagicLink`, by what failed.
pub data SendError : Type 0 where
  marshal build send : Bytes → SendError
  refused : ℕ → Bytes → SendError

pub record Outbox : Type 0 where
  pub printed : List (Bytes × Bytes)
  pub posted : List HttpRequest

-- `check_url` is the error with which `http.NewRequest` refuses a URL, if it does.
pub record Calls : Type 0 where
  pub marshal : ResendRequest → Result Bytes Bytes
  pub check_url : Bytes → Option Bytes
  pub answer : HttpRequest → Result Bytes Reply

abbrev pub resend_api_url : Bytes
resend_api_url = codes "https://api.resend.com/emails"

abbrev pub default_from : Bytes
default_from = codes "onboarding@resend.dev"

unfoldable pub new_resend_sender : Bytes → Bytes → ResendSender
new_resend_sender api_key from = record { api_key = api_key; from = from; api_url = resend_api_url }

unfoldable pub new_sender : Config → Sender
unfolding new_resend_sender
new_sender cfg =
    if length cfg.resend_api_key == 0
    then stdout
    else resend (new_resend_sender cfg.resend_api_key default_from)

-- The text of the mail; 34 is a quotation mark.
abbrev pub html_of : Bytes → Bytes
html_of link =
    codes "<p>Click <a href="
    ++ 34 ∷ link
    ++ 34 ∷ codes ">here</a> to sign in. This link expires in 15 minutes.</p>"

abbrev pub mail_of : ResendSender → Bytes → Bytes → ResendRequest
mail_of s to link = record {
  from = s.from;
  to = to;
  subject = codes "Your sign-in link";
  html = html_of link;
}

abbrev pub request_of : ResendSender → Bytes → HttpRequest
request_of s payload = record {
  method = codes "POST";
  url = s.api_url;
  headers =
      (codes "Authorization", codes "Bearer " ++ s.api_key)
      ∷ (codes "Content-Type", codes "application/json")
      ∷ [];
  body = payload;
}

-- Of the body of a refusal 4096 bytes are read.
abbrev pub replied : Result Bytes Reply → Result SendError (Unit {0})
replied (err e) = err (send e)
replied (ok reply) =
    if ltb reply.status 200 || leb 300 reply.status
    then err (refused reply.status (take 4096 reply.body))
    else ok tt

abbrev pub posting :
    Calls → ResendSender → Bytes → Outbox → Option Bytes → Result SendError (Unit {0}) × Outbox
posting calls s payload box (some e) = (err (build e), box)
posting calls s payload box none =
    let r = request_of s payload in
    (replied (calls.answer r), record box { posted = box.posted ++ r ∷ [] })

abbrev pub encoded :
    Calls → ResendSender → Outbox → Result Bytes Bytes → Result SendError (Unit {0}) × Outbox
encoded calls s box (err e) = (err (marshal e), box)
encoded calls s box (ok payload) = posting calls s payload box (calls.check_url s.api_url)

-- `SendMagicLink` of both senders
unfoldable pub send_magic_link :
    Calls → Sender → Bytes → Bytes → Outbox → Result SendError (Unit {0}) × Outbox
send_magic_link calls stdout to link box =
    (ok tt, record box { printed = box.printed ++ (to, link) ∷ [] })
send_magic_link calls (resend s) to link box =
    encoded calls s box (calls.marshal (mail_of s to link))
