-- ===== src/Twilio.antt =====
-- The calls of Twilio (adapters/whatsapp_twilio/sender.py and webhook_verifier.py).
use Prim.Native.String.{◌++◌ as concat}
use growth_track.Models.{ContentVariables}
use growth_track.Session.{Message, SendReply, accepted, rejected, Env}
use growth_track.Config.{Settings}
use growth_track.Api.Webhooks.{Params}
use growth_track.Prelude.{ℕ, String, Bool, Option, none, some}

-- The arguments of `messages.create`.
pub record MessageRequest : Type 0 where
  pub content_sid : String
  pub content_variables : String
  pub to : String
  pub from_ : String

-- The SID of the message, or the code and the text of a TwilioRestException.
pub data CreateReply : Type 0 where
  created : String → CreateReply
  rest_exception : ℕ → String → CreateReply

-- Twilio's client and validator, `json.dumps`, `str` of a code, and `str.rstrip("/")`.
pub record Library : Type 0 where
  -- The answer to a call, numbered.
  pub create : String → String → ℕ → MessageRequest → CreateReply
  pub validate : String → String → Params → String → Bool
  pub dumps : ContentVariables → String
  pub str : ℕ → String
  pub rstrip_slashes : String → String

-- A number in an f-string, where a missing one is the text None.
abbrev pub number_text : Option String → String
number_text none = "None"
number_text (some number) = number

module _ (library : Library) (settings : Settings) where
  abbrev pub request_of : Message → MessageRequest
  request_of m = record {
    content_sid = m.content_sid;
    content_variables = library.dumps m.content_variables;
    to = concat "whatsapp:" (number_text m.to_number);
    from_ = concat "whatsapp:" settings.twilio_whatsapp_number;
  }

  -- The text of the exception is its code and its message.
  abbrev pub reply_of : CreateReply → SendReply
  reply_of (created sid) = accepted sid
  reply_of (rest_exception code msg) = rejected (concat (library.str code) (concat ": " msg))

  -- TwilioWhatsAppSender.send_template_message
  unfoldable pub send_template_message : ℕ → Message → SendReply
  send_template_message call m =
      reply_of
        (library.create settings.twilio_account_sid settings.twilio_auth_token call (request_of m))

  -- The environment with Twilio behind the sender.
  abbrev pub with_sender : Env → Env
  with_sender env = record env { send = send_template_message }

  -- verify_signature
  abbrev pub verify_signature : String → Params → String → String → Bool
  verify_signature url params signature auth_token =
      library.validate auth_token url params signature

  -- The check of the route, against the public address of the callback.
  unfoldable pub verified : Params → String → Bool
  verified params signature =
      verify_signature
        (concat (library.rstrip_slashes settings.webhook_public_base_url) "/webhooks/twilio/status")
        params signature settings.twilio_auth_token
