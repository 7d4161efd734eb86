-- ===== src/Config/Password.antt =====
-- Which password a loaded configuration of config.py has.
use priestly.Base.{
  ◌≡◌, refl, ◌||◌, Option, none, some, [], ◌∷◌, Result, ok, ◌>>=◌, Bytes, if◌then◌else◌,
}
use priestly.Python.Text.{Text, codes}
use priestly.Config.{ServerConfig, is_truthy, password_required, first_truthy, password_from_env}
use priestly.Config.Loading.{Reader, load, load_with_env, override}

-- If the file is loaded, load_with_env returns a configuration that requires a password exactly if
-- PRIESTLY_PASSWD or PASSWD is set and not empty in the environment or the password of the loaded
-- configuration is.
pub password_required-override :
    (reader : Reader) (file : Option (Result Bytes)) (get : Text → Option Text) (cfg : ServerConfig)
    → load reader file ≡ ok cfg
    → (load_with_env reader file get >>= λ node. ok (password_required node))
      ≡ ok (
          is_truthy (get (codes "PRIESTLY_PASSWD"))
          || (is_truthy (get (codes "PASSWD")) || password_required cfg))
unfolding load_with_env password_required password_from_env first_truthy
password_required-override reader file get cfg h =
    rw h (by_values (get (codes "PRIESTLY_PASSWD")) (get (codes "PASSWD")))
  where
    by_values :
        (p q : Option Text)
        → ok (
            is_truthy
              (override
                (if is_truthy p then p else (if is_truthy q then q else none))
                cfg).password)
          ≡ ok (is_truthy p || (is_truthy q || is_truthy cfg.password))
    by_values (some (c ∷ p)) q = refl
    by_values (some []) (some (c ∷ q)) = refl
    by_values (some []) (some []) = refl
    by_values (some []) none = refl
    by_values none (some (c ∷ q)) = refl
    by_values none (some []) = refl
    by_values none none = refl
