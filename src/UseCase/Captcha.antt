-- ===== src/UseCase/Captcha.antt =====
-- The call of port.CaptchaVerifier with which the use cases begin.
use kde_auth.Prelude.{String, Option, none, some}
use kde_auth.Domain.Errors.{Error, Result, ok, err}
use kde_auth.Port.{Moment}
use kde_auth.Exec.{Exec, lift}

abbrev pub captcha_result : Option Error → Result (Unit {0})
captcha_result none = ok tt
captcha_result (some e) = err e

unfoldable pub verify_captcha : Moment → String → String → Exec (Unit {0})
verify_captcha at token remote_ip = lift (captcha_result (at.captcha token remote_ip))
