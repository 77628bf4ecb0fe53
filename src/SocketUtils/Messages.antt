-- ===== src/SocketUtils/Messages.antt =====
-- The texts of the exceptions of common/socket_utils.cpp. `FormatMessageA` and the decimal digits of
-- `std::format` are parameters.
use mathlib.Core.Path.{subst}
use win_udpsharded_echo.Prelude.{
  ℕ, ◌≡◌, refl, sym, ap, ◌∙◌, [], ◌∷◌, ◌++◌, Bool, true, false, Option, none, some, arith, ◌==◌,
  ◌||◌, ◌&&◌, if◌then◌else◌, Text, codes, Bool-cases, inl, inr,
}
use win_udpsharded_echo.Options.{is_empty, is_empty-nil}
use win_udpsharded_echo.SocketUtils.Calls.{
  Failure, wsa_startup_failed, wsa_socket_failed, wsa_ioctl_failed, create_port_failed,
  associate_failed, set_modes_failed, bind_failed, getsockname_failed, unsupported_family,
  set_sockopt_failed,
}

-- `none` where there is no text for the code.
pub record Formats : Type 0 where
  pub format_message : ℕ → Option Text
  pub decimal : ℕ → Text

abbrev pub is_newline : ℕ → Bool
is_newline c = c == 10 || c == 13

-- The loop that takes newlines off the end.
unfoldable pub trim : Text → Text
trim [] = []
trim (c ∷ cs) = let rest = trim cs in if is_empty rest && is_newline c then [] else c ∷ rest

unfoldable pub text_of : Formats → ℕ → Option Text → Text
text_of f error none = codes "Error code " ++ f.decimal error
text_of f error (some message) = trim message

-- For what `GetLastError` and `WSAGetLastError` return.
unfoldable pub get_last_error_message : Formats → ℕ → ℕ → Text
get_last_error_message f last wsa_last =
    let error = if last == 0 then wsa_last else last in
    if error == 0
    then codes "No error"
    else text_of f error (f.format_message error) ++ codes " (code " ++ f.decimal error ++ codes ")"

-- `what` of an exception, from its code and the text of `get_last_error_message`. `WSAStartup` returns
-- its error.
unfoldable pub failure_text : Formats → Failure → ℕ → Text → Text
failure_text f wsa_startup_failed code m = codes "WSAStartup failed: " ++ f.decimal code
failure_text f wsa_socket_failed code m = codes "WSASocket failed: " ++ m
failure_text f wsa_ioctl_failed code m = codes "WSAIoctl SIO_CPU_AFFINITY failed: " ++ m
failure_text f create_port_failed code m = codes "CreateIoCompletionPort failed: " ++ m
failure_text f associate_failed code m = codes "CreateIoCompletionPort (associate) failed: " ++ m
failure_text f set_modes_failed code m = codes "SetFileCompletionNotificationModes failed: " ++ m
failure_text f bind_failed code m = codes "bind failed: " ++ m
failure_text f getsockname_failed code m = codes "getsockname failed: " ++ m
failure_text f (unsupported_family family) code m =
    codes "Unsupported address family for bind: " ++ f.decimal family
failure_text f (set_sockopt_failed level optname) code m =
    codes "setsockopt failed (level="
    ++ f.decimal level
    ++ codes ", optname="
    ++ f.decimal optname
    ++ codes "): "
    ++ m

-- Newlines only.
abbrev pub AreNewlines : Text → Type 0
AreNewlines [] = Unit {0}
AreNewlines (c ∷ cs) = (is_newline c ≡ true) × AreNewlines cs

-- The last character is no newline.
abbrev pub IsTrimmed : Text → Type 0
IsTrimmed [] = Unit {0}
IsTrimmed (c ∷ []) = is_newline c ≡ false
IsTrimmed (c ∷ d ∷ cs) = IsTrimmed (d ∷ cs)

IsTrimmed-cons :
    (c : ℕ) (cs : Text) → (is_empty cs && is_newline c) ≡ false → IsTrimmed cs → IsTrimmed (c ∷ cs)
unfolding is_empty
IsTrimmed-cons c [] h t = h
IsTrimmed-cons c (d ∷ cs) h t = t

both-left : (a b : Bool) → (a && b) ≡ true → a ≡ true
both-left true b h = refl
both-left false b h = h

both-right : (a b : Bool) → (a && b) ≡ true → b ≡ true
both-right true b h = h
both-right false b h = absurd (ground (arith, h))

-- Of the text of an error nothing is lost but the newlines at its end, and all of those.
pub trim_lem :
    (t : Text) → (tail : Text) × (t ≡ trim t ++ tail) × AreNewlines tail × IsTrimmed (trim t)
unfolding trim
trim_lem [] = ([], refl, tt, tt)
trim_lem (c ∷ cs) =
    let (tail, e, n, k) = trim_lem cs in
    elim (Bool-cases (is_empty (trim cs) && is_newline c)) [
      | inl b ↦
          rw (b, IsTrimmed)
            (
              c ∷ cs,
              refl,
              (
                both-right (is_empty (trim cs)) (is_newline c) b,
                subst AreNewlines
                    (sym (
                      e
                      ∙ ap (λ l. l ++ tail)
                          (is_empty-nil (trim cs) (both-left (is_empty (trim cs)) _ b))))
                    n,
              ),
              tt,
            )
      | inr b ↦ rw (b, IsTrimmed) (tail, ap (λ l. c ∷ l) e, n, IsTrimmed-cons c (trim cs) b k)
    ]
