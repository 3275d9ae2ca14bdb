-- ===== src/Nmea/Messages/RoundTrip.antt =====
-- protocol_nmea.cpp: the parser knows the names of the messages.
use rover_workspace.Prelude.{
  ℕ, subst, Bool-cases, inl, inr, ◌≤◌, ◌≡◌, ◌≢◌, refl, false, Option, none, some, List, ◌∷◌, ◌++◌,
  ltb, arith,
}
use rover_workspace.Prelude.Int.{pos}
use rover_workspace.Nmea.Signals.{switch}
use rover_workspace.Nmea.Messages.{
  msg_pstrb, msg_nelb, uint32_match, first_match, get_nmea_msg_id, talkers, nmea_msg_id_to_talker,
}
use rover_workspace.Nmea.Signals.RoundTrip.{switch-EachCase}

-- The message id of a sentence that starts with this name
abbrev Known : (rest : List ℕ) (msg_size msg_id : ℕ) → Option (List ℕ) → Type 0
Known rest size id none = Unit {0}
Known rest size id (some name) =
    id ≢ msg_pstrb → id ≢ msg_nelb → get_nmea_msg_id (b'$' ∷ name ++ b',' ∷ rest) size ≡ pos id

switch-Known :
    (rest : List ℕ) (size : ℕ) → 5 ≤ size → (id : ℕ) → Known rest size id (switch talkers none id)
unfolding get_nmea_msg_id first_match uint32_match
switch-Known rest size enough id =
    let long : ltb size 5 ≡ false = ground arith in
    switch-EachCase (Known rest size) talkers none id
      (
        (λ a b. rw long refl),
        (
          (λ a b. rw long refl),
          (
            (λ a b. rw long refl),
            (
              (λ a b. rw long refl),
              (
                (λ a b. rw long refl),
                (
                  (λ a b. rw long refl),
                  (
                    (λ a b. rw long refl),
                    (
                      (λ a b. rw long refl),
                      (
                        (λ a b. rw long refl),
                        (
                          (λ a b. rw long refl),
                          (
                            (λ a b. rw long refl),
                            (
                              (λ a b. rw long refl),
                              (
                                (λ a b. absurd (a refl)),
                                (
                                  (λ a b. rw long refl),
                                  (
                                    (λ a b. rw long refl),
                                    (
                                      (λ a b. rw long refl),
                                      (
                                        (λ a b. rw long refl),
                                        (
                                          (λ a b. rw long refl),
                                          (
                                            (λ a b. rw long refl),
                                            (
                                              (λ a b. rw long refl),
                                              (
                                                (λ a b. rw long refl),
                                                (
                                                  (λ a b. absurd (b refl)),
                                                  (
                                                    (λ a b. rw long refl),
                                                    (
                                                      (λ a b. rw long refl),
                                                      (
                                                        (λ a b. rw long refl),
                                                        ((λ a b. rw long refl), tt),
                                                      ),
                                                    ),
                                                  ),
                                                ),
                                              ),
                                            ),
                                          ),
                                        ),
                                      ),
                                    ),
                                  ),
                                ),
                              ),
                            ),
                          ),
                        ),
                      ),
                    ),
                  ),
                ),
              ),
            ),
          ),
        ),
      )
      tt

-- A sentence that starts with a dollar, the name that `nmeaMsgIdToTalker` gives for a message id, and
-- a comma, has this id for `getNmeaMsgId`: for all ids with a name but PSTRB and NELB.
pub msg_id-talker :
    (msg_id str_size msg_size : ℕ) (name rest : List ℕ)
    → nmea_msg_id_to_talker msg_id str_size ≡ some name
    → msg_id ≢ msg_pstrb
    → msg_id ≢ msg_nelb
    → 5 ≤ msg_size
    → get_nmea_msg_id (b'$' ∷ name ++ b',' ∷ rest) msg_size ≡ pos msg_id
unfolding nmea_msg_id_to_talker
msg_id-talker id str_size size name rest e not_pstrb not_nelb enough =
    elim (Bool-cases (ltb str_size 5)) [
      | inl short ↦ absurd (cc (rw short at e))
      | inr fits ↦
          let given : switch talkers none id ≡ some name = rw fits at e in
          subst (Known rest size id) given (switch-Known rest size enough id) not_pstrb not_nelb
    ]
