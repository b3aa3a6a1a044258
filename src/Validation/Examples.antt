-- ===== src/Validation/Examples.antt =====
-- Inputs of pkg/validation/validation_test.go, and the theorems at such inputs.
use mchat.Base.{◌≡◌, ◌↔◌, refl, true, false, codes}
use mchat.Validation.Credentials.{IsPassword, validate_password_iff}
use mchat.Validation.Email.{IsEmail, validate_email_iff}
use mchat.Validation.{
  validate_password, validate_name, validate_email, password_class, digits_class, lower_class,
  upper_class, symbols_class, word_class, local_class, domain_class,
}

passwords :
    (validate_password (codes "2344NewYear@lone") ≡ true)
    × (validate_password (codes "password2348") ≡ false)
unfolding validate_password password_class digits_class lower_class upper_class symbols_class
passwords = (refl, refl)

names :
    (validate_name (codes "nasayer_777") ≡ true)
    × (validate_name (codes "_StartWithUnderscore") ≡ false)
unfolding validate_name word_class
names = (refl, refl)

emails :
    (validate_email (codes "very.common@example.com") ≡ true)
    × (validate_email (codes "postmaster@[IPv6:2001:db8::7334]") ≡ true)
    × (validate_email (codes "John..Doe@example.com") ≡ false)
    × (validate_email (codes "a@b@c@example.com") ≡ false)
unfolding validate_email local_class domain_class
emails = (refl, refl, refl, refl)

validate_password_iff_example :
    (validate_password (codes "2344NewYear@lone") ≡ true) ↔ IsPassword (codes "2344NewYear@lone")
validate_password_iff_example = validate_password_iff (codes "2344NewYear@lone")

validate_email_iff_example :
    (validate_email (codes "very.common@example.com") ≡ true)
    ↔ IsEmail (codes "very.common@example.com")
validate_email_iff_example = validate_email_iff (codes "very.common@example.com")
