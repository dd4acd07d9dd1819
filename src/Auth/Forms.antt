-- ===== src/Auth/Forms.antt =====
-- backend/app/auth/forms.py: the forms and their fields' bounds. A field that is missing is the empty
-- text, and `none` is a `ValidationError`.
use compliance_pulse.Prelude.{
  ℕ, Text, Bool, Option, none, some, ◌&&◌, leb, strip, text_eq, length, if◌then◌else◌,
}

pub record LoginForm : Type 0 where
  pub email : Text
  pub password : Text

pub record RegisterForm : Type 0 where
  pub email : Text
  pub password : Text
  pub confirm_password : Text
  pub organization_name : Text

-- `Field(min_length=..., max_length=...)`
abbrev has_length : ℕ → ℕ → Text → Bool
has_length least most value = leb least (length value) && leb (length value) most

abbrev email_is_valid : (Text → Bool) → Text → Bool
email_is_valid matches email = has_length 3 254 email && matches email

-- `LoginForm.from_form`; `none` is a `ValidationError`.
unfoldable pub login_form : (Text → Bool) → LoginForm → Option LoginForm
login_form matches raw =
    let form : LoginForm = record { email = strip raw.email; password = raw.password } in
    if email_is_valid matches form.email && leb 1 (length form.password) then some form else none

-- `RegisterForm.from_form`
unfoldable pub register_form : (Text → Bool) → RegisterForm → Option RegisterForm
register_form matches raw =
    let form : RegisterForm = record raw {
      email = strip raw.email;
      organization_name = strip raw.organization_name;
    } in
    if email_is_valid matches form.email
      && leb 8 (length form.password)
      && leb 8 (length form.confirm_password)
      && has_length 2 120 form.organization_name
      && text_eq form.password form.confirm_password
    then some form
    else none

-- `OrganizationForm.from_form`, whose one field is the name
unfoldable pub organization_form : Text → Option Text
organization_form raw = let name = strip raw in if has_length 2 120 name then some name else none
