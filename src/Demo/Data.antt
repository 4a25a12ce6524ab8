-- ===== src/Demo/Data.antt =====
-- The fixed data of internal/demo/demo.go.
use attes_tam.Base.{[], ◌∷◌, Bytes}
use attes_tam.Text.{text}

abbrev pub default_tam_admin_name : Bytes
default_tam_admin_name = text "admin@example.com"

abbrev pub default_developer_name : Bytes
default_developer_name = text "developer1@example.com"

abbrev pub default_device_admin_name : Bytes
default_device_admin_name = text "dev-admin1@example.com"

abbrev pub default_device_ueid : Bytes
default_device_ueid = 1 ∷ text "building-dev-123"

abbrev pub trusted_component_hello_text : Bytes
trusted_component_hello_text = 129 ∷ 73 ∷ 104 ∷ 101 ∷ 108 ∷ 108 ∷ 111 ∷ 46 ∷ 116 ∷ 120 ∷ 116 ∷ []

abbrev pub default_agent_kid : Bytes
default_agent_kid =
    118 ∷ 233 ∷ 166 ∷ 203 ∷ 235 ∷ 94 ∷ 122 ∷ 159 ∷ 154 ∷ 129 ∷ 233 ∷ 237 ∷ 250 ∷ 72 ∷ 157 ∷ 250
    ∷ 135 ∷ 254 ∷ 110 ∷ 232 ∷ 165 ∷ 118 ∷ 41 ∷ 224 ∷ 249 ∷ 215 ∷ 175 ∷ 251 ∷ 93 ∷ 183 ∷ 251 ∷ 77
    ∷ []

abbrev pub default_trusted_agent_key : Bytes
default_trusted_agent_key =
    166 ∷ 1 ∷ 2 ∷ 3 ∷ 40 ∷ 32 ∷ 1 ∷ 33 ∷ 88 ∷ 32 ∷ 190 ∷ 124 ∷ 86 ∷ 153 ∷ 63 ∷ 113 ∷ 17 ∷ 69 ∷ 52
    ∷ 194 ∷ 244 ∷ 164 ∷ 244 ∷ 228 ∷ 96 ∷ 103 ∷ 132 ∷ 250 ∷ 157 ∷ 150 ∷ 53 ∷ 225 ∷ 34 ∷ 188 ∷ 138
    ∷ 73 ∷ 11 ∷ 46 ∷ 17 ∷ 254 ∷ 185 ∷ 50 ∷ 34 ∷ 88 ∷ 32 ∷ 129 ∷ 105 ∷ 107 ∷ 66 ∷ 195 ∷ 190 ∷ 27 ∷ 36
    ∷ 76 ∷ 192 ∷ 59 ∷ 202 ∷ 151 ∷ 240 ∷ 206 ∷ 117 ∷ 226 ∷ 217 ∷ 58 ∷ 218 ∷ 28 ∷ 229 ∷ 86 ∷ 98 ∷ 146
    ∷ 39 ∷ 241 ∷ 10 ∷ 140 ∷ 44 ∷ 91 ∷ 41 ∷ 35 ∷ 88 ∷ 32 ∷ 161 ∷ 61 ∷ 28 ∷ 159 ∷ 66 ∷ 120 ∷ 4 ∷ 112
    ∷ 130 ∷ 196 ∷ 164 ∷ 6 ∷ 239 ∷ 51 ∷ 169 ∷ 174 ∷ 210 ∷ 218 ∷ 1 ∷ 5 ∷ 135 ∷ 163 ∷ 117 ∷ 30 ∷ 171
    ∷ 170 ∷ 11 ∷ 107 ∷ 160 ∷ 18 ∷ 99 ∷ 227 ∷ []

abbrev pub hello_text_manifest_v0 : Bytes
hello_text_manifest_v0 =
    216 ∷ 107 ∷ 163 ∷ 2 ∷ 88 ∷ 150 ∷ 130 ∷ 88 ∷ 36 ∷ 130 ∷ 47 ∷ 88 ∷ 32 ∷ 67 ∷ 19 ∷ 22 ∷ 4 ∷ 132
    ∷ 24 ∷ 47 ∷ 4 ∷ 17 ∷ 151 ∷ 246 ∷ 149 ∷ 164 ∷ 18 ∷ 183 ∷ 197 ∷ 145 ∷ 203 ∷ 17 ∷ 44 ∷ 202 ∷ 170
    ∷ 93 ∷ 96 ∷ 192 ∷ 50 ∷ 133 ∷ 239 ∷ 126 ∷ 32 ∷ 252 ∷ 176 ∷ 88 ∷ 109 ∷ 210 ∷ 132 ∷ 67 ∷ 161 ∷ 1
    ∷ 40 ∷ 161 ∷ 4 ∷ 88 ∷ 32 ∷ 202 ∷ 158 ∷ 53 ∷ 242 ∷ 59 ∷ 43 ∷ 82 ∷ 95 ∷ 180 ∷ 252 ∷ 131 ∷ 245 ∷ 18
    ∷ 176 ∷ 220 ∷ 172 ∷ 74 ∷ 194 ∷ 158 ∷ 69 ∷ 126 ∷ 135 ∷ 58 ∷ 93 ∷ 106 ∷ 115 ∷ 19 ∷ 247 ∷ 22 ∷ 144
    ∷ 179 ∷ 60 ∷ 246 ∷ 88 ∷ 64 ∷ 16 ∷ 171 ∷ 25 ∷ 71 ∷ 150 ∷ 141 ∷ 96 ∷ 110 ∷ 152 ∷ 179 ∷ 210 ∷ 38
    ∷ 117 ∷ 229 ∷ 156 ∷ 113 ∷ 98 ∷ 68 ∷ 39 ∷ 39 ∷ 95 ∷ 205 ∷ 152 ∷ 204 ∷ 161 ∷ 84 ∷ 20 ∷ 77 ∷ 15
    ∷ 81 ∷ 255 ∷ 82 ∷ 251 ∷ 217 ∷ 88 ∷ 190 ∷ 188 ∷ 195 ∷ 48 ∷ 208 ∷ 207 ∷ 178 ∷ 182 ∷ 5 ∷ 49 ∷ 250
    ∷ 122 ∷ 70 ∷ 43 ∷ 87 ∷ 118 ∷ 218 ∷ 30 ∷ 193 ∷ 222 ∷ 148 ∷ 249 ∷ 225 ∷ 56 ∷ 49 ∷ 93 ∷ 210 ∷ 84
    ∷ 25 ∷ 3 ∷ 88 ∷ 153 ∷ 165 ∷ 1 ∷ 1 ∷ 2 ∷ 0 ∷ 3 ∷ 88 ∷ 101 ∷ 162 ∷ 2 ∷ 129 ∷ 129 ∷ 73 ∷ 104 ∷ 101
    ∷ 108 ∷ 108 ∷ 111 ∷ 46 ∷ 116 ∷ 120 ∷ 116 ∷ 4 ∷ 88 ∷ 84 ∷ 134 ∷ 20 ∷ 164 ∷ 1 ∷ 80 ∷ 250 ∷ 107
    ∷ 74 ∷ 83 ∷ 213 ∷ 173 ∷ 95 ∷ 223 ∷ 190 ∷ 157 ∷ 230 ∷ 99 ∷ 228 ∷ 212 ∷ 31 ∷ 254 ∷ 2 ∷ 80 ∷ 20
    ∷ 146 ∷ 175 ∷ 20 ∷ 37 ∷ 105 ∷ 94 ∷ 72 ∷ 191 ∷ 66 ∷ 155 ∷ 45 ∷ 81 ∷ 242 ∷ 171 ∷ 69 ∷ 3 ∷ 88 ∷ 36
    ∷ 130 ∷ 47 ∷ 88 ∷ 32 ∷ 223 ∷ 253 ∷ 96 ∷ 33 ∷ 187 ∷ 43 ∷ 213 ∷ 176 ∷ 175 ∷ 103 ∷ 98 ∷ 144 ∷ 128
    ∷ 158 ∷ 195 ∷ 165 ∷ 49 ∷ 145 ∷ 221 ∷ 129 ∷ 199 ∷ 247 ∷ 10 ∷ 75 ∷ 40 ∷ 104 ∷ 138 ∷ 54 ∷ 33 ∷ 130
    ∷ 152 ∷ 111 ∷ 14 ∷ 13 ∷ 1 ∷ 15 ∷ 2 ∷ 15 ∷ 5 ∷ 129 ∷ 84 ∷ 109 ∷ 97 ∷ 110 ∷ 105 ∷ 102 ∷ 101 ∷ 115
    ∷ 116 ∷ 46 ∷ 116 ∷ 101 ∷ 120 ∷ 116 ∷ 46 ∷ 48 ∷ 46 ∷ 115 ∷ 117 ∷ 105 ∷ 116 ∷ 16 ∷ 83 ∷ 134 ∷ 20
    ∷ 161 ∷ 21 ∷ 106 ∷ 35 ∷ 104 ∷ 101 ∷ 108 ∷ 108 ∷ 111 ∷ 46 ∷ 116 ∷ 120 ∷ 116 ∷ 21 ∷ 2 ∷ 3 ∷ 15
    ∷ 106 ∷ 35 ∷ 104 ∷ 101 ∷ 108 ∷ 108 ∷ 111 ∷ 46 ∷ 116 ∷ 120 ∷ 116 ∷ 77 ∷ 72 ∷ 101 ∷ 108 ∷ 108
    ∷ 111 ∷ 44 ∷ 32 ∷ 87 ∷ 111 ∷ 114 ∷ 108 ∷ 100 ∷ 33 ∷ []

abbrev pub hello_text_manifest_digest : Bytes
hello_text_manifest_digest =
    130 ∷ 47 ∷ 88 ∷ 32 ∷ 67 ∷ 19 ∷ 22 ∷ 4 ∷ 132 ∷ 24 ∷ 47 ∷ 4 ∷ 17 ∷ 151 ∷ 246 ∷ 149 ∷ 164 ∷ 18
    ∷ 183 ∷ 197 ∷ 145 ∷ 203 ∷ 17 ∷ 44 ∷ 202 ∷ 170 ∷ 93 ∷ 96 ∷ 192 ∷ 50 ∷ 133 ∷ 239 ∷ 126 ∷ 32 ∷ 252
    ∷ 176 ∷ []

abbrev pub developer_key_x : Bytes
developer_key_x =
    132 ∷ 150 ∷ 129 ∷ 26 ∷ 174 ∷ 11 ∷ 170 ∷ 171 ∷ 210 ∷ 97 ∷ 87 ∷ 24 ∷ 158 ∷ 236 ∷ 218 ∷ 38 ∷ 190
    ∷ 170 ∷ 139 ∷ 241 ∷ 27 ∷ 111 ∷ 63 ∷ 230 ∷ 226 ∷ 181 ∷ 101 ∷ 156 ∷ 133 ∷ 219 ∷ 192 ∷ 173 ∷ []

abbrev pub developer_key_y : Bytes
developer_key_y =
    59 ∷ 31 ∷ 42 ∷ 75 ∷ 108 ∷ 9 ∷ 129 ∷ 49 ∷ 192 ∷ 163 ∷ 109 ∷ 172 ∷ 209 ∷ 215 ∷ 139 ∷ 211 ∷ 129
    ∷ 220 ∷ 223 ∷ 176 ∷ 156 ∷ 5 ∷ 45 ∷ 179 ∷ 57 ∷ 145 ∷ 219 ∷ 115 ∷ 56 ∷ 180 ∷ 168 ∷ 150 ∷ []

-- DemoTAMPrivateKeyCBOR of internal/demo/keys.go
abbrev pub demo_tam_private_key : Bytes
demo_tam_private_key =
    166 ∷ 1 ∷ 2 ∷ 3 ∷ 40 ∷ 32 ∷ 1 ∷ 33 ∷ 88 ∷ 32 ∷ 14 ∷ 144 ∷ 138 ∷ 168 ∷ 240 ∷ 102 ∷ 219 ∷ 31 ∷ 8
    ∷ 78 ∷ 12 ∷ 54 ∷ 82 ∷ 198 ∷ 57 ∷ 82 ∷ 189 ∷ 153 ∷ 242 ∷ 165 ∷ 189 ∷ 178 ∷ 47 ∷ 158 ∷ 1 ∷ 54
    ∷ 122 ∷ 173 ∷ 3 ∷ 171 ∷ 166 ∷ 139 ∷ 34 ∷ 88 ∷ 32 ∷ 119 ∷ 218 ∷ 27 ∷ 216 ∷ 172 ∷ 79 ∷ 12 ∷ 180
    ∷ 144 ∷ 186 ∷ 33 ∷ 6 ∷ 72 ∷ 191 ∷ 121 ∷ 171 ∷ 22 ∷ 77 ∷ 73 ∷ 173 ∷ 53 ∷ 81 ∷ 215 ∷ 29 ∷ 49 ∷ 75
    ∷ 39 ∷ 73 ∷ 238 ∷ 66 ∷ 210 ∷ 154 ∷ 35 ∷ 88 ∷ 32 ∷ 132 ∷ 26 ∷ 235 ∷ 183 ∷ 185 ∷ 234 ∷ 111 ∷ 2
    ∷ 96 ∷ 190 ∷ 115 ∷ 85 ∷ 162 ∷ 69 ∷ 136 ∷ 185 ∷ 119 ∷ 210 ∷ 61 ∷ 42 ∷ 197 ∷ 191 ∷ 43 ∷ 107 ∷ 45
    ∷ 131 ∷ 121 ∷ 67 ∷ 42 ∷ 31 ∷ 234 ∷ 152 ∷ []
