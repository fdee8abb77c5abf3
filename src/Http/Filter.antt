-- ===== src/Http/Filter.antt =====
-- `HttpExceptionFilter` (common/filters/http-exception.filter.ts).
use scheduling_service.Base.{ℕ, String, List, [], ◌∷◌, is_empty, if◌then◌else◌}

-- `response.message` of an exception whose response is an object.
pub data Message : Type 0 where
  absent : Message
  one : String → Message
  many : List String → Message

-- `getResponse()`: a text, or an object.
pub data ExceptionResponse : Type 0 where
  plain : String → ExceptionResponse
  fields : Message → ExceptionResponse

pub record HttpException : Type 0 where
  pub status : ℕ
  pub name : String
  pub own_message : String
  pub response : ExceptionResponse

pub record ErrorResponse : Type 0 where
  pub status_code : ℕ
  pub timestamp : ℕ
  pub path : String
  pub method : String
  pub message : List String
  pub error : String

-- `exceptionResponse.message || exception.message`, made an array where it is not one.
abbrev message_or : Message → String → List String
message_or absent own = own ∷ []
message_or (one text) own = (if is_empty text then own else text) ∷ []
message_or (many texts) own = texts

abbrev pub messages_of : ExceptionResponse → String → List String
messages_of (plain text) own = text ∷ []
messages_of (fields message) own = message_or message own

abbrev pub filter : HttpException → String → String → ℕ → ErrorResponse
filter exception path method now = record {
  status_code = exception.status;
  timestamp = now;
  path = path;
  method = method;
  message = messages_of exception.response exception.own_message;
  error = exception.name;
}
