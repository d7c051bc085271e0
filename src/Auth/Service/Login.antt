-- ===== src/Auth/Service/Login.antt =====
-- Registration and login. The profile's `agent_code` is made of the student number, and is left out.
use text.Mathlib.Text.{◌==◌ as str_eq}
use campus_agent.Base.{
  ◌&&◌, Bool, false, not, Option, none, some, [], ◌∷◌, ◌++◌, String, if◌then◌else◌, is_some,
}
use campus_agent.Base.Action.{◌>>=◌, ◌>>◌, return, gets, modify, require, raise_if}
use campus_agent.Organizations.Models.{UserStatus, student}
use campus_agent.Auth.Models.{
  User, weak_password, user_already_exists, invalid_credentials, Store, Service, Crypto, Fresh,
  is_closed, get_by_email, student_no_exists, phone_number_exists,
}
use campus_agent.Auth.Passwords.{Text, is_strong}
use campus_agent.Auth.Service.Common.{Tokens, open_session, tokens_for}

module _ (crypto : Crypto) where
  open crypto use {
    decode_token, encode_token, hash_jti, hash_password, checkpw, normalise_email, normalise_phone,
    refresh_seconds, access_seconds,
  }

  abbrev phone_taken : Option String → Store → Bool
  phone_taken none s = false
  phone_taken (some p) s = not (str_eq p "") && phone_number_exists p s

  -- An empty number is no number.
  abbrev clean_phone : Option String → Option String
  clean_phone none = none
  clean_phone (some p) = if str_eq p "" then none else some (normalise_phone p)

  unfoldable pub register_user :
      Text → Fresh → String → String → String → String → Option String → Service Tokens
  register_user text fresh email password display_name student_no phone_number = do
    let email_normalised = normalise_email email
    let phone = clean_phone phone_number
    raise_if (not (is_strong text password email_normalised student_no)) weak_password
    email_taken ← gets (λ s. is_some (get_by_email email_normalised s))
    raise_if email_taken user_already_exists
    number_taken ← gets (student_no_exists student_no)
    raise_if number_taken user_already_exists
    phone_bound ← gets (phone_taken phone)
    raise_if phone_bound user_already_exists
    now ← gets (λ s. s.now)
    let user : User = record {
      id = fresh.user_id;
      email = email_normalised;
      password_hash = hash_password password;
      display_name = display_name;
      global_role = student;
      status = UserStatus.active;
      deleted_at = none;
    }
    modify (λ s. record s {
      users = s.users ++ user ∷ [];
      profiles =
          s.profiles
          ++ (record { user_id = user.id; student_no = student_no; phone_number = phone }) ∷ [];
    })
    modify (open_session crypto user fresh)
    modify (λ s. record s { registered = s.registered ++ user.id ∷ [] })
    return (tokens_for crypto user fresh now)

  -- The user whose password this is.
  abbrev pub authenticated : String → Option User → Option User
  authenticated password none = none
  authenticated password (some u) = if checkpw password u.password_hash then some u else none

  unfoldable pub login_user : Fresh → String → String → Service Tokens
  login_user fresh email password = do
    user ←
        require (λ s. authenticated password (get_by_email (normalise_email email) s))
          invalid_credentials
    raise_if (is_closed user.status) invalid_credentials
    now ← gets (λ s. s.now)
    modify (open_session crypto user fresh)
    return (tokens_for crypto user fresh now)
