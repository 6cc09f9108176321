-- ===== src/Web.antt =====
-- HTTP requests as the server code reads them: Request, URL and FormData of the web platform.
use history_quiz.Prelude.{String, Option}

-- new URL(request.url)
pub record Url : Type 0 where
  pub origin : String
  pub pathname : String
  pub search : String
  pub search_param : String → Option String

-- A value of FormData: a text or a file.
pub data FormValue : Type 0 where
  text : String → FormValue
  file : FormValue

-- `C` is the type of the session cookie's name=value pair. `header` is request.headers.get.
pub record Request (C : Type 0) : Type 0 where
  pub cookie : Option C
  pub header : String → Option String
  pub method : String
  pub url : Url
