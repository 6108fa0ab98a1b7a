-- ===== src/Twilio/Sessions.antt =====
-- The sessions that `twilio_event` reads in the address of a call.
use delfos.Prelude.{
  ℕ, zero, suc, ◌+◌, ◌<◌, ◌≤◌, ◌≡◌, refl, ap, ◌∙◌, Bool, true, false, not, ◌&&◌, [], ◌∷◌, ◌++◌,
  some, Text, codes, arith, length, length-append, take, drop, ◌==◌,
}
use delfos.Text.{size_mod, starts_with, find?, find, substr}
use delfos.Twilio.{
  user_mark, agent_mark, response_mark, init_index, end_index, user_session, agent_session,
}

-- No byte of the text is a slash.
abbrev pub is_plain : Text → Bool
is_plain [] = true
is_plain (c ∷ s) = not (b'/' == c) && is_plain s

starts_with_self : (p r : Text) → starts_with p (p ++ r) ≡ true
unfolding starts_with
starts_with_self [] r = refl
starts_with_self (c ∷ p) r = ground (arith, starts_with_self p r)

-- A pattern that begins with a slash is found behind a text without one.
find?_past :
    (p a r : Text) (i : ℕ)
    → is_plain a ≡ true
    → find? (b'/' ∷ p) r ≡ some i
    → find? (b'/' ∷ p) (a ++ r) ≡ some (i + length a)
unfolding find? starts_with
find?_past p [] r i h e = e ∙ ap some (omega arith)
find?_past p (c ∷ a) r i h e = ground (arith, h, find?_past p a r i)

find?_here : (c : ℕ) (p r : Text) → find? (c ∷ p) ((c ∷ p) ++ r) ≡ some 0
unfolding find? starts_with
find?_here c p r = ground (arith, starts_with_self p r)

-- The address of a call: something without a slash, the mark of a channel, its session, and the
-- mark of the response.
abbrev pub address : Text → Text → Text → Text → Text
address mark host session rest = host ++ (mark ++ (session ++ (response_mark ++ rest)))

find_at : (p s : Text) (i : ℕ) → find? p s ≡ some i → find p s ≡ i
unfolding find
find_at p s i e = rw (e, find) refl

agent_found :
    (host session rest : Text)
    → is_plain host ≡ true
    → find agent_mark (address agent_mark host session rest) ≡ length host
agent_found host session rest h =
    find_at agent_mark _ _ (
      find?_past (codes "ch-agt_") host (agent_mark ++ (session ++ (response_mark ++ rest))) 0 h
        (find?_here b'/' (codes "ch-agt_") (session ++ (response_mark ++ rest))))
    ∙ omega arith

user_found :
    (host session rest : Text)
    → is_plain host ≡ true
    → find user_mark (address user_mark host session rest) ≡ length host
user_found host session rest h =
    find_at user_mark _ _ (
      find?_past (codes "ch-usr_") host (user_mark ++ (session ++ (response_mark ++ rest))) 0 h
        (find?_here b'/' (codes "ch-usr_") (session ++ (response_mark ++ rest))))
    ∙ omega arith

find?_skip :
    (p : Text) (c : ℕ) (s : Text) (i : ℕ)
    → starts_with p (c ∷ s) ≡ false
    → find? p s ≡ some i
    → find? p (c ∷ s) ≡ some (i + 1)
unfolding find?
find?_skip p c s i h e = rw (find?, h, e) refl

-- The response's mark stands behind the session, whichever channel's mark is before it.
response_found_agent :
    (host session rest : Text)
    → is_plain host ≡ true
    → is_plain session ≡ true
    → find response_mark (address agent_mark host session rest) ≡ length host + length session + 8
unfolding starts_with
response_found_agent host session rest h k =
    find_at response_mark _ _ (
      find?_past (codes "calling_response") host
        (agent_mark ++ (session ++ (response_mark ++ rest)))
        (length (codes "ch-agt_" ++ session) + 1) h
        (find?_skip response_mark b'/' (codes "ch-agt_" ++ (session ++ (response_mark ++ rest)))
          (length (codes "ch-agt_" ++ session)) refl
          (find?_past (codes "calling_response") (codes "ch-agt_" ++ session)
              (response_mark ++ rest) 0 k (find?_here b'/' (codes "calling_response") rest)
            ∙ ap some (omega arith))))
    ∙ omega arith

response_found_user :
    (host session rest : Text)
    → is_plain host ≡ true
    → is_plain session ≡ true
    → find response_mark (address user_mark host session rest) ≡ length host + length session + 8
unfolding starts_with
response_found_user host session rest h k =
    find_at response_mark _ _ (
      find?_past (codes "calling_response") host (user_mark ++ (session ++ (response_mark ++ rest)))
        (length (codes "ch-usr_" ++ session) + 1) h
        (find?_skip response_mark b'/' (codes "ch-usr_" ++ (session ++ (response_mark ++ rest)))
          (length (codes "ch-usr_" ++ session)) refl
          (find?_past (codes "calling_response") (codes "ch-usr_" ++ session)
              (response_mark ++ rest) 0 k (find?_here b'/' (codes "calling_response") rest)
            ∙ ap some (omega arith))))
    ∙ omega arith

drop_past : (a r : Text) (n : ℕ) → drop (length a + n) (a ++ r) ≡ drop n r
drop_past [] r n = ap (λ k. drop k r) (omega arith)
drop_past (c ∷ a) r n =
    ap (λ k. drop k ((c ∷ a) ++ r)) {y = suc (length a + n)} (omega arith) ∙ drop_past a r n

take_whole : (a r : Text) → take (length a) (a ++ r) ≡ a
take_whole [] r = refl
take_whole (c ∷ a) r = ap (λ s. c ∷ s) (take_whole a r)

take_within : (n : ℕ) (a r : Text) → n ≤ length a → take n (a ++ r) ≡ take n a
take_within zero a r h = refl
take_within (suc n) [] r h = absurd omega (arith, h)
take_within (suc n) (c ∷ a) r h = ap (λ s. c ∷ s) (take_within n a r (omega (arith, h)))

-- `substr` behind a host, of what ends before the rest.
substr_past :
    (host r : Text) (pos n k : ℕ)
    → pos ≡ length host + k
    → k < length r
    → substr pos n (host ++ r) ≡ some (take n (drop k r))
unfolding substr
substr_past host r pos n k e h = rw e (ground (arith, h, length-append host r, drop_past host r k))

-- In the address of a call that fits in 2^64 bytes, with a host and a session that hold no slash, a
-- user's session is read whole, behind all but the first byte of its mark; an agent's is read behind
-- its mark without its last byte.
pub address_sessions :
    (host session rest : Text)
    → is_plain host ≡ true
    → is_plain session ≡ true
    → length host + length session + 8 < size_mod
    → (user_session (address user_mark host session rest) ≡ some (codes "h-usr_" ++ session))
      × (agent_session (address agent_mark host session rest)
          ≡ some (take (length session + 6) (codes "ch-agt_" ++ session)))
unfolding user_session agent_session init_index end_index
address_sessions host session rest h k small =
    let behind = response_mark ++ rest in
    (
      rw (user_found host session rest h, response_found_user host session rest h k)
          (substr_past host _ _ _ 2 (omega (arith, small)) (omega arith)
            ∙ ap (λ n. some (take n (codes "h-usr_" ++ (session ++ behind))))
                {y = length (codes "h-usr_" ++ session)} (omega (arith, small))
            ∙ ap some (take_whole (codes "h-usr_" ++ session) behind)),
      rw (agent_found host session rest h, response_found_agent host session rest h k)
          (substr_past host _ _ _ 1 (omega (arith, small)) (omega arith)
            ∙ ap (λ n. some (take n (codes "ch-agt_" ++ (session ++ behind))))
                {y = length session + 6} (omega (arith, small))
            ∙ ap some (
                take_within (length session + 6) (codes "ch-agt_" ++ session) behind
                  (omega arith))),
    )
