-- ===== src/Filetype/Table.antt =====
-- backend/internal/filetype/filetype.go: the table of extensions, call by call.
use findo.Prelude.{true, false, List, [], ◌∷◌, ◌++◌, codes, Text}
use findo.Filetype.{
  Call, add, set_extractor, words, text_plain, kind_pdf, kind_doc, kind_xls, kind_ppt, kind_img,
  kind_vid, kind_aud, kind_zip, kind_txt, kind_file, ext_text, ext_docx, ext_xlsx, ext_pptx,
  ext_numbers, ext_pages, ext_keynote, ext_pdf,
}

abbrev pub code_exts : List Text
code_exts =
    words
      "c h cc cpp cxx c++ hpp hh hxx m mm cs java kt kts scala groovy go rs zig py pyw rb php pl pm lua r jl swift dart hs ml mli erl hrl ex exs clj cljs lisp el vim asm s js mjs cjs jsx tsx vue svelte css scss sass less sh bash zsh fish ps1 psm1 bat cmd sql graphql gql proto tf hcl nix gradle mk cmake yaml yml toml ini cfg conf properties env jsonc json5 tex bib diff patch gitignore gitattributes editorconfig"

abbrev pub documents : List Call
documents =
    add (codes "application/pdf") kind_pdf true (words "pdf")
    ∷ add (codes "application/msword") kind_doc false (words "doc")
    ∷ add (codes "application/vnd.openxmlformats-officedocument.wordprocessingml.document") kind_doc
        false (words "docx")
    ∷ add (codes "application/vnd.ms-word.document.macroEnabled.12") kind_doc false (words "docm")
    ∷ add (codes "application/vnd.openxmlformats-officedocument.wordprocessingml.template") kind_doc
        false (words "dotx")
    ∷ add (codes "application/vnd.apple.pages") kind_doc false (words "pages")
    ∷ add (codes "application/rtf") kind_doc false (words "rtf")
    ∷ add (codes "application/vnd.ms-excel") kind_xls false (words "xls")
    ∷ add (codes "application/vnd.openxmlformats-officedocument.spreadsheetml.sheet") kind_xls false
        (words "xlsx")
    ∷ add (codes "application/vnd.ms-excel.sheet.macroEnabled.12") kind_xls false (words "xlsm")
    ∷ add (codes "application/vnd.openxmlformats-officedocument.spreadsheetml.template") kind_xls
        false (words "xltx")
    ∷ add (codes "application/vnd.apple.numbers") kind_xls false (words "numbers")
    ∷ add text_plain kind_xls true (words "csv tsv")
    ∷ add (codes "application/vnd.ms-powerpoint") kind_ppt false (words "ppt")
    ∷ add (codes "application/vnd.openxmlformats-officedocument.presentationml.presentation")
        kind_ppt false (words "pptx")
    ∷ add (codes "application/vnd.ms-powerpoint.presentation.macroEnabled.12") kind_ppt false
        (words "pptm")
    ∷ add (codes "application/vnd.openxmlformats-officedocument.presentationml.slideshow") kind_ppt
        false (words "ppsx")
    ∷ add (codes "application/vnd.openxmlformats-officedocument.presentationml.template") kind_ppt
        false (words "potx")
    ∷ add (codes "application/vnd.apple.keynote") kind_ppt false (words "key")
    ∷ []

abbrev pub images : List Call
images =
    add (codes "image/jpeg") kind_img true (words "jpg jpeg jfif")
    ∷ add (codes "image/png") kind_img true (words "png")
    ∷ add (codes "image/apng") kind_img true (words "apng")
    ∷ add (codes "image/gif") kind_img true (words "gif")
    ∷ add (codes "image/webp") kind_img true (words "webp")
    ∷ add (codes "image/avif") kind_img true (words "avif")
    ∷ add (codes "image/bmp") kind_img true (words "bmp")
    ∷ add (codes "image/x-icon") kind_img true (words "ico")
    ∷ add (codes "image/svg+xml") kind_img false (words "svg")
    ∷ add (codes "image/heic") kind_img false (words "heic")
    ∷ add (codes "image/heif") kind_img false (words "heif")
    ∷ add (codes "image/tiff") kind_img false (words "tif tiff")
    ∷ add (codes "image/jxl") kind_img false (words "jxl")
    ∷ add (codes "image/jp2") kind_img false (words "jp2 j2k")
    ∷ add (codes "image/vnd.adobe.photoshop") kind_img false (words "psd")
    ∷ add (codes "application/postscript") kind_img false (words "ai eps")
    ∷ add (codes "image/icns") kind_img false (words "icns")
    ∷ add (codes "image/x-tga") kind_img false (words "tga")
    ∷ add (codes "image/x-xcf") kind_img false (words "xcf")
    ∷ add (codes "image/x-canon-cr2") kind_img false (words "cr2")
    ∷ add (codes "image/x-canon-cr3") kind_img false (words "cr3")
    ∷ add (codes "image/x-nikon-nef") kind_img false (words "nef")
    ∷ add (codes "image/x-sony-arw") kind_img false (words "arw")
    ∷ add (codes "image/x-adobe-dng") kind_img false (words "dng")
    ∷ add (codes "image/x-olympus-orf") kind_img false (words "orf")
    ∷ add (codes "image/x-panasonic-rw2") kind_img false (words "rw2")
    ∷ add (codes "image/x-fuji-raf") kind_img false (words "raf")
    ∷ add (codes "image/x-pentax-pef") kind_img false (words "pef")
    ∷ []

abbrev pub videos : List Call
videos =
    add (codes "video/mp4") kind_vid true (words "mp4 m4v")
    ∷ add (codes "video/quicktime") kind_vid true (words "mov")
    ∷ add (codes "video/webm") kind_vid true (words "webm")
    ∷ add (codes "video/x-msvideo") kind_vid false (words "avi")
    ∷ add (codes "video/x-matroska") kind_vid false (words "mkv")
    ∷ add (codes "video/x-ms-wmv") kind_vid false (words "wmv")
    ∷ add (codes "video/x-ms-asf") kind_vid false (words "asf")
    ∷ add (codes "video/x-flv") kind_vid false (words "flv")
    ∷ add (codes "video/x-f4v") kind_vid false (words "f4v")
    ∷ add (codes "video/mpeg") kind_vid false (words "mpg mpeg mpe m2v vob")
    ∷ add (codes "video/mp2t") kind_vid false (words "m2ts mts")
    ∷ add (codes "video/3gpp") kind_vid false (words "3gp")
    ∷ add (codes "video/3gpp2") kind_vid false (words "3g2")
    ∷ add (codes "video/ogg") kind_vid false (words "ogv")
    ∷ add (codes "video/divx") kind_vid false (words "divx")
    ∷ add (codes "video/x-dv") kind_vid false (words "dv")
    ∷ add (codes "application/mxf") kind_vid false (words "mxf")
    ∷ add (codes "application/vnd.rn-realmedia") kind_vid false (words "rm")
    ∷ add (codes "application/vnd.rn-realmedia-vbr") kind_vid false (words "rmvb")
    ∷ []

abbrev pub audio : List Call
audio =
    add (codes "audio/mpeg") kind_aud true (words "mp3")
    ∷ add (codes "audio/mp4") kind_aud true (words "m4a")
    ∷ add (codes "audio/aac") kind_aud true (words "aac")
    ∷ add (codes "audio/wav") kind_aud true (words "wav")
    ∷ add (codes "audio/flac") kind_aud true (words "flac")
    ∷ add (codes "audio/mp4") kind_aud false (words "m4b m4p m4r")
    ∷ add (codes "audio/aac") kind_aud false (words "adts")
    ∷ add (codes "audio/ogg") kind_aud false (words "ogg oga opus")
    ∷ add (codes "audio/aiff") kind_aud false (words "aiff aif aifc")
    ∷ add (codes "audio/x-caf") kind_aud false (words "caf")
    ∷ add (codes "audio/x-ms-wma") kind_aud false (words "wma")
    ∷ add (codes "audio/amr") kind_aud false (words "amr")
    ∷ add (codes "audio/basic") kind_aud false (words "au snd")
    ∷ add (codes "audio/ac3") kind_aud false (words "ac3")
    ∷ add (codes "audio/eac3") kind_aud false (words "ec3")
    ∷ add (codes "audio/midi") kind_aud false (words "mid midi kar")
    ∷ []

abbrev pub archives_and_text : List Call
archives_and_text =
    add (codes "application/zip") kind_zip false (words "zip")
    ∷ add (codes "application/x-tar") kind_zip false (words "tar")
    ∷ add (codes "application/gzip") kind_zip false (words "gz")
    ∷ add (codes "application/x-7z-compressed") kind_zip false (words "7z")
    ∷ add text_plain kind_txt true (words "txt md mdx rst adoc org log")
    ∷ add (codes "application/json") kind_txt true (words "json")
    ∷ add (codes "text/xml; charset=utf-8") kind_txt true (words "xml")
    ∷ add text_plain kind_txt true (code_exts)
    ∷ []

abbrev pub extractors : List Call
extractors =
    set_extractor ext_pdf (words "pdf")
    ∷ set_extractor ext_docx (words "docx docm dotx")
    ∷ set_extractor ext_xlsx (words "xlsx xlsm xltx")
    ∷ set_extractor ext_pptx (words "pptx pptm ppsx potx")
    ∷ set_extractor ext_numbers (words "numbers")
    ∷ set_extractor ext_pages (words "pages")
    ∷ set_extractor ext_keynote (words "key")
    ∷ set_extractor ext_text (words "txt md mdx rst adoc org log json xml csv tsv" ++ code_exts)
    ∷ []

abbrev pub markup : List Call
markup = add (codes "text/html; charset=utf-8") kind_file false (words "html htm") ∷ []

-- The calls of init, in order.
abbrev pub init_calls : List Call
init_calls =
    documents ++ (images ++ (videos ++ (audio ++ (archives_and_text ++ (extractors ++ markup)))))
