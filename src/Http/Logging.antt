-- ===== src/Http/Logging.antt =====
-- `LoggingInterceptor` (common/interceptors/logging.interceptor.ts).
use scheduling_service.Base.{
  ℕ, ◌==◌, ◌≡◌, Bool, false, not, ◌||◌, Option, none, some, get_or, [], ◌∷◌, ◌++◌, All, All-append,
  take, filterb, arith, if◌then◌else◌, zero, suc, Bool-cases, inl, inr,
}
use scheduling_service.Base.Text.{Text, codes}

-- `/[\r\n]/`
abbrev pub is_break : ℕ → Bool
is_break c = c == 13 || c == 10

-- `.replace(/[\r\n]/g, '').slice(0, 200)`
abbrev pub sanitized : Text → Text
sanitized t = take 200 (filterb (λ c. not (is_break c)) t)

pub record Request : Type 0 where
  pub method : Text
  pub url : Text
  pub ip : Text
  pub user_agent : Option Text

abbrev pub incoming_line : Request → Text
incoming_line r =
    codes "Incoming Request: "
    ++ (r.method
        ++ (codes " "
            ++ (sanitized r.url
                ++ (codes " - IP: "
                    ++ (r.ip ++ (codes " - User-Agent: " ++ sanitized (get_or r.user_agent [])))))))

-- `print` writes a number into a template.
module _ (print : ℕ → Text) where
  abbrev pub outgoing_line : Request → (status_code duration : ℕ) → Text
  outgoing_line r status_code duration =
      codes "Outgoing Response: "
      ++ (r.method
          ++ (codes " "
              ++ (sanitized r.url
                  ++ (codes " - Status: "
                      ++ (print status_code
                          ++ (codes " - Duration: " ++ (print duration ++ codes "ms")))))))

  -- `error.status || 500`
  abbrev pub status_or_500 : Option ℕ → ℕ
  status_or_500 none = 500
  status_or_500 (some status) = if status == 0 then 500 else status

  abbrev pub error_line : Request → (status : Option ℕ) (message : Text) (duration : ℕ) → Text
  error_line r status message duration =
      codes "Request Error: "
      ++ (r.method
          ++ (codes " "
              ++ (sanitized r.url
                  ++ (codes " - Status: "
                      ++ (print (status_or_500 status)
                          ++ (codes " - Duration: "
                              ++ (print duration ++ (codes "ms - Error: " ++ message))))))))

-- No line break in the text.
abbrev pub IsOneLine : Text → Type 0
IsOneLine = All (λ c. is_break c ≡ false)

filtered-IsOneLine : (t : Text) → IsOneLine (filterb (λ c. not (is_break c)) t)
filtered-IsOneLine [] = tt
filtered-IsOneLine (c ∷ t) = elim (Bool-cases (is_break c)) [
  | inl e ↦ rw e (filtered-IsOneLine t)
  | inr e ↦ rw e (e, filtered-IsOneLine t)
]

take-IsOneLine : (n : ℕ) (t : Text) → IsOneLine t → IsOneLine (take n t)
take-IsOneLine zero t h = tt
take-IsOneLine (suc n) [] h = tt
take-IsOneLine (suc n) (c ∷ t) h = (h.0, take-IsOneLine n t h.1)

sanitized-IsOneLine : (t : Text) → IsOneLine (sanitized t)
sanitized-IsOneLine t =
    take-IsOneLine 200 (filterb (λ c. not (is_break c)) t) (filtered-IsOneLine t)

both : (s t : Text) → IsOneLine s → IsOneLine t → IsOneLine (s ++ t)
both s t = All-append (λ c. is_break c ≡ false) s t

-- Whatever the URL and the user agent, the line that is logged for a request has no line break, where the method and
-- the address have none.
pub incoming-IsOneLine :
    (r : Request) → IsOneLine r.method → IsOneLine r.ip → IsOneLine (incoming_line r)
incoming-IsOneLine r m ip = both (codes "Incoming Request: ") _ (ground arith) (
    both r.method _ m (
      both (codes " ") _ (ground arith) (
        both (sanitized r.url) _ (sanitized-IsOneLine r.url) (
          both (codes " - IP: ") _ (ground arith) (
            both r.ip _ ip (
              both (codes " - User-Agent: ") _ (ground arith)
                (sanitized-IsOneLine (get_or r.user_agent []))))))))
