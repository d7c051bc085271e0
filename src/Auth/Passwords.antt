-- ===== src/Auth/Passwords.antt =====
-- apps/api/src/modules/auth/passwords.py: the strength rules. The record `Text` is what they use of
-- Python's strings and regular expressions.
use campus_agent.Base.{ℕ, Bool, false, ◌&&◌, not, Option, none, some, String, ltb, leb}

pub record Text : Type 0 where
  pub len : String → ℕ
  pub is_blank : String → Bool  -- `s.strip() == ""`
  pub has_letter : String → Bool
  pub has_digit : String → Bool
  pub local_part : String → Option String  -- before the "@", if there is one
  pub lower : String → String
  pub contains : String → String → Bool  -- `a in b`

module _ (t : Text) where
  open t use {len, is_blank, has_letter, has_digit, local_part, lower, contains}

  -- Rule 4 fails.
  abbrev has_local_part : String → Option String → Bool
  has_local_part password none = false
  has_local_part password (some l) = leb 3 (len l) && contains (lower l) (lower password)

  -- No rule fails; the email is given at every call.
  unfoldable pub is_strong : String → String → String → Bool
  is_strong password email student_no =
      not (ltb (len password) 8)
      && (not (is_blank password)
          && (has_letter password
              && (has_digit password
                  && (not (has_local_part password (local_part email))
                      && not (leb 3 (len student_no) && contains student_no password)))))
