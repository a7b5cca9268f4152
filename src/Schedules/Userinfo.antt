-- ===== src/Schedules/Userinfo.antt =====
-- What the check of URLs makes of an at sign
-- (crates/gateway/src/runtime/schedules/validation.rs).
use serial_agent.Prelude.{
  ℕ, ◌≤◌, ◌≡◌, refl, sym, ap, ◌∙◌, Bool, true, false, some, [], ◌∷◌, ◌++◌, Bytes, bytes, arith,
}
use mathlib.Core.List.{map-append}
use serial_agent.Strings.{strip_prefix}
use serial_agent.Strings.Pieces.{Lacks, split_once-alone, split_once-append}
use serial_agent.Schedules.Url.{
  to_ascii_lowercase, after_scheme, after_userinfo, check_rest, check_host, host_of, piece_before,
  validate_url,
}

-- The two schemes that pass.
abbrev pub scheme : Bool → Bytes
scheme true = bytes "https://"
scheme false = bytes "http://"

pub Lacks-to_ascii_lowercase :
    (c : ℕ) (s : Bytes) → c ≤ 64 → Lacks c s → Lacks c (to_ascii_lowercase s)
Lacks-to_ascii_lowercase c [] small h = tt
Lacks-to_ascii_lowercase c (b ∷ s) small h =
    (ground (arith, h.0), Lacks-to_ascii_lowercase c s small h.1)

pub validate_url-scheme :
    (secure : Bool) (s : Bytes)
    → validate_url (scheme secure ++ s) ≡ check_rest (some (to_ascii_lowercase s))
unfolding validate_url after_scheme strip_prefix
validate_url-scheme true s = refl
validate_url-scheme false s = refl

pub after_userinfo-alone : (s : Bytes) → Lacks 64 s → after_userinfo s ≡ s
unfolding after_userinfo
after_userinfo-alone s h = rw (split_once-alone 64 s h) refl

after_userinfo-append : (s t : Bytes) → Lacks 64 s → after_userinfo (s ++ (64 ∷ t)) ≡ t
unfolding after_userinfo
after_userinfo-append s t h = rw (split_once-append 64 s t h) refl

-- Of a URL with one at sign the check sees only what follows it, wherever the sign stands: a host
-- before a path with an at sign is not checked at all.
pub validate_url-at_sign :
    (secure : Bool) (before after : Bytes)
    → Lacks 64 before
    → Lacks 64 after
    → validate_url (scheme secure ++ (before ++ (64 ∷ after)))
      ≡ validate_url (scheme secure ++ after)
validate_url-at_sign secure before after h k =
    let before' = to_ascii_lowercase before in
    let after' = to_ascii_lowercase after in
    let whole : to_ascii_lowercase (before ++ (64 ∷ after)) ≡ before' ++ (64 ∷ after') =
      map-append _ before (64 ∷ after) in
    let seen : after_userinfo (before' ++ (64 ∷ after')) ≡ after_userinfo after' =
      after_userinfo-append before' after' (Lacks-to_ascii_lowercase 64 before (omega arith) h)
      ∙ sym (after_userinfo-alone after' (Lacks-to_ascii_lowercase 64 after (omega arith) k)) in
    validate_url-scheme secure (before ++ (64 ∷ after))
    ∙ ap (λ s. check_rest (some s)) whole
    ∙ ap (λ s. check_host (host_of (piece_before 47 s))) seen
    ∙ sym (validate_url-scheme secure after)
